-- ===== src/Correlation/Links.antt =====
-- engine/correlation/signals.py: `link_logs_to_metrics`. An exception of `float` or of the division
-- ends the function, and is `none`.
pub mod Found
use mathlib.Core.Path.{subst}
use becertain.Prelude.{
  ◌≡◌, ◌≢◌, refl, String, Bool, true, false, List, [], ◌∷◌, ◌++◌, ◌&&◌, Option, none, some, inl,
  inr, All, All-append, All-imp, Bool-cases, sym, ◌∙◌, arith, Option-cases, if◌then◌else◌,
}
use becertain.Prelude.Sorting.{
  sort_by, All-sort_by, IsSorted, IsSorted-sort_by, AnyOf, AnyOf-sort_by, AnyOf-append_left,
  AnyOf-append_right,
}
use becertain.Store.Documents.{◌>>=◌}
use becertain.Value.{float, str, Runtime}
use becertain.Correlation.{Arithmetic, MetricAnomaly, LogBurst, attr_or}

pub record LogMetricLink (F : Type 0) : Type 0 where
  pub metric_name : String
  pub metric_timestamp : F
  pub log_stream : String
  pub log_burst_start : F
  pub lag_seconds : F
  pub strength : F

module _ {F : Type 0} (fl : Arithmetic F) (rt : Runtime F) (max_lag_seconds : F) where
  abbrev pub start_of : LogBurst F → Option F
  start_of burst =
      fl.to_float (attr_or burst.window_start (attr_or burst.start (float (fl.of_nat 0))))

  -- `0 <= lag <= max_lag_seconds`
  abbrev pub is_linked : F → Bool
  is_linked lag = fl.le (fl.of_nat 0) lag && fl.le lag max_lag_seconds

  abbrev pub link : MetricAnomaly F → LogBurst F → F → F → LogMetricLink F
  link anomaly burst burst_start ratio = record {
    metric_name = anomaly.metric_name;
    metric_timestamp = anomaly.timestamp;
    log_stream = rt.str_of (attr_or burst.stream (str "unknown"));
    log_burst_start = burst_start;
    lag_seconds = fl.round 1 (fl.sub anomaly.timestamp burst_start);
    strength = fl.round 3 (fl.sub (fl.of_nat 1) ratio);
  }

  -- the body of the loops
  abbrev pub linked : MetricAnomaly F → LogBurst F → F → Option (List (LogMetricLink F))
  linked anomaly burst burst_start =
      let lag = fl.sub anomaly.timestamp burst_start in
      if is_linked lag
      then fl.div lag max_lag_seconds
        >>= (λ ratio. some (link anomaly burst burst_start ratio ∷ []))
      else some []

  unfoldable pub link_of : MetricAnomaly F → LogBurst F → Option (List (LogMetricLink F))
  link_of anomaly burst = start_of burst >>= linked anomaly burst

  unfoldable pub links_of : MetricAnomaly F → List (LogBurst F) → Option (List (LogMetricLink F))
  links_of anomaly [] = some []
  links_of anomaly (burst ∷ bursts) = do
    found ← link_of anomaly burst
    others ← links_of anomaly bursts
    some (found ++ others)

  unfoldable pub all_links :
      List (MetricAnomaly F) → List (LogBurst F) → Option (List (LogMetricLink F))
  all_links [] bursts = some []
  all_links (anomaly ∷ anomalies) bursts = do
    found ← links_of anomaly bursts
    others ← all_links anomalies bursts
    some (found ++ others)

  unfoldable pub link_logs_to_metrics :
      List (MetricAnomaly F) → List (LogBurst F) → Option (List (LogMetricLink F))
  link_logs_to_metrics metric_anomalies log_bursts = do
    links ← all_links metric_anomalies log_bursts
    some (sort_by (λ k l. fl.lt l.strength k.strength) links)
