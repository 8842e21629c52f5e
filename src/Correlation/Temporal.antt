-- ===== src/Correlation/Temporal.antt =====
-- engine/correlation/temporal.py: `correlate`. Each anchor, in the order of time, opens a window,
-- unless a window that became an event has it.
pub mod Bounds
pub mod Covered
use becertain.Prelude.{
  ℕ, ◌+◌, String, Bool, true, false, not, ◌&&◌, ◌||◌, List, [], ◌∷◌, ◌++◌, Option, none, some,
  str_eq, if◌then◌else◌, any, filter, map, length, contains, leb, ltb,
}
use becertain.Prelude.Sorting.{sort_by}
use becertain.Value.{Value, null, float, Runtime}
use becertain.Correlation.{
  Arithmetic, MetricAnomaly, LogBurst, ServiceLatency, min_of, unless_nan, safe_float, overlap,
  latency_window, attr_or,
}
use becertain.Correlation.Services.{normalize_text, services_of_metric, services_of_burst}

-- The fields of `settings` that the module reads.
pub record Weights (F : Type 0) : Type 0 where
  pub correlation_window_seconds : F
  pub correlation_score_max : F
  pub correlation_errors_cap : F
  pub correlation_weight_time : F
  pub correlation_weight_latency : F
  pub correlation_weight_errors : F

pub record CorrelatedEvent (F : Type 0) : Type 0 where
  pub window_start : F
  pub window_end : F
  pub metric_anomalies : List (MetricAnomaly F)
  pub log_bursts : List (LogBurst F)
  pub service_latency : List (ServiceLatency F)
  pub signal_count : ℕ
  pub confidence : F

-- The arguments of `correlate`, with what the interpreter and `settings` give it.
pub record Signals (F : Type 0) : Type 0 where
  pub fl : Arithmetic F
  pub rt : Runtime F
  pub lower : String → String
  pub settings : Weights F
  pub metric_anomalies : List (MetricAnomaly F)
  pub log_bursts : List (LogBurst F)
  pub service_latency : List (ServiceLatency F)
  pub window_seconds : Option F
  pub weight_fn : Option (F → F → F → F)

module _ {F : Type 0} where
  -- `getattr(b, "start", getattr(b, "window_start", None))`
  abbrev pub burst_start : LogBurst F → Value F
  burst_start b = attr_or b.start (attr_or b.window_start null)

  abbrev pub burst_end : LogBurst F → Value F
  burst_end b = attr_or b.end (attr_or b.window_end null)

  abbrev pub some_of : List (Option F) → List F
  some_of [] = []
  some_of (none ∷ xs) = some_of xs
  some_of (some x ∷ xs) = x ∷ some_of xs

module _ {F : Type 0} (s : Signals F) where
  abbrev pub window : F
  window = elim s.window_seconds [ none ↦ s.settings.correlation_window_seconds | some w ↦ w ]

  abbrev pub window_from : F → F
  window_from anchor = s.fl.sub anchor window

  abbrev pub window_to : F → F
  window_to anchor = s.fl.add anchor window

  -- `w_start <= x <= w_end` for the window of an anchor
  abbrev pub in_window : F → F → Bool
  in_window anchor x = s.fl.le (window_from anchor) x && s.fl.le x (window_to anchor)

  -- `anchor_times`, sorted
  unfoldable pub anchor_times : List F
  anchor_times = sort_by s.fl.lt (
      some_of (
        map (λ a. unless_nan s.fl a.timestamp) s.metric_anomalies
        ++ map (λ b. safe_float s.fl (burst_start b)) s.log_bursts))

  -- Two ends that are both known, and overlap the window.
  abbrev pub reaches : F → Option F → Option F → Bool
  reaches anchor (some start) (some end) =
      overlap s.fl (window_from anchor) (window_to anchor) start end
  reaches anchor start end = false

  unfoldable pub metrics_in : F → List (MetricAnomaly F)
  metrics_in anchor = filter (λ a. in_window anchor a.timestamp) s.metric_anomalies

  unfoldable pub bursts_in : F → List (LogBurst F)
  bursts_in anchor =
      filter (λ b. reaches anchor (safe_float s.fl (burst_start b)) (safe_float s.fl (burst_end b)))
        s.log_bursts

  abbrev pub all_metric_services : List (MetricAnomaly F) → List String
  all_metric_services [] = []
  all_metric_services (a ∷ ma) = services_of_metric s.lower a.metric_name ++ all_metric_services ma

  abbrev pub all_log_services : List (LogBurst F) → List String
  all_log_services [] = []
  all_log_services (b ∷ lb) = services_of_burst s.lower s.rt b ++ all_log_services lb

  -- `metric_services | log_services`
  unfoldable pub correlated_services : F → List String
  correlated_services anchor =
      all_metric_services (metrics_in anchor) ++ all_log_services (bursts_in anchor)

  unfoldable pub latency_in : F → List (ServiceLatency F)
  latency_in anchor =
      filter
        (λ l.
          let service_name = normalize_text s.lower l.service in
          let (start, end) = latency_window s.fl l in
          not (str_eq service_name "")
          && contains service_name (correlated_services anchor)
          && reaches anchor start end)
        s.service_latency

  -- `sig`
  abbrev pub signal_count_of : F → ℕ
  signal_count_of anchor =
      length (metrics_in anchor) + length (bursts_in anchor) + length (latency_in anchor)

  abbrev pub score : F → ℕ → F → F
  score cap count weight = min_of s.fl cap (s.fl.mul (s.fl.of_nat count) weight)

  abbrev pub raw_confidence : F → F → F → F
  raw_confidence metric_score log_score trace_score = elim s.weight_fn [
    | none ↦ s.fl.add (s.fl.add metric_score log_score) trace_score
    | some weight_fn ↦ weight_fn metric_score log_score trace_score
  ]

  unfoldable pub confidence_of : F → F
  confidence_of anchor =
      let w = s.settings in
      let metric_score =
        score w.correlation_score_max (length (metrics_in anchor)) w.correlation_weight_time in
      let log_score =
        score w.correlation_score_max (length (bursts_in anchor)) w.correlation_weight_latency in
      let trace_score =
        score w.correlation_errors_cap (length (latency_in anchor)) w.correlation_weight_errors in
      s.fl.round 3
        (min_of s.fl w.correlation_score_max (raw_confidence metric_score log_score trace_score))

  abbrev pub event_of : F → CorrelatedEvent F
  event_of anchor = record {
    window_start = window_from anchor;
    window_end = window_to anchor;
    metric_anomalies = metrics_in anchor;
    log_bursts = bursts_in anchor;
    service_latency = latency_in anchor;
    signal_count = signal_count_of anchor;
    confidence = confidence_of anchor;
  }

  -- `anchor in used`
  abbrev pub is_used : F → List F → Bool
  is_used anchor used = any (λ u. s.fl.eq u anchor) used

  -- the loop over the anchors, with the set `used`
  unfoldable pub correlate_loop : List F → List F → List F → List (CorrelatedEvent F)
  correlate_loop anchors [] used = []
  correlate_loop anchors (anchor ∷ rest) used =
      let skipped = correlate_loop anchors rest used in
      let opened = correlate_loop anchors rest (filter (in_window anchor) anchors ++ used) in
      if is_used anchor used || ltb (signal_count_of anchor) 2
      then skipped
      else event_of anchor ∷ opened

  unfoldable pub correlate : List (CorrelatedEvent F)
  correlate =
      sort_by (λ e d. s.fl.lt d.confidence e.confidence)
        (correlate_loop anchor_times anchor_times [])
