-- ===== src/Correlation/Temporal/Bounds.antt =====
-- The events of `correlate` one by one: their signals, their windows and their confidence.
use becertain.Prelude.{
  ◌+◌, ◌≤◌, ◌≡◌, refl, true, false, List, [], ◌∷◌, ◌++◌, ◌&&◌, ◌||◌, inl, inr, length, All,
  All-filter_test, All-imp, Bool-cases, filter, arith, ltb,
}
use becertain.Prelude.Sorting.{All-sort_by, IsSorted, IsSorted-sort_by}
use becertain.Correlation.{Arithmetic, MetricAnomaly, min_of}
use becertain.Correlation.Temporal.{
  Signals, CorrelatedEvent, correlate, correlate_loop, anchor_times, metrics_in, confidence_of,
  signal_count_of, in_window, is_used,
}

-- What the bound on the confidence needs of the arithmetic: `<` within `<=`, and a maximum that
-- `<=` itself and that rounding does not pass.
pub record IsBoundedBy {F : Type 0} (fl : Arithmetic F) (top : F) : Type 0 where
  pub lt_le : (x : F) → fl.lt x top ≡ true → fl.le x top ≡ true
  pub top_le : fl.le top top ≡ true
  pub round_le : (x : F) → fl.le x top ≡ true → fl.le (fl.round 3 x) top ≡ true

module _ {F : Type 0} (s : Signals F) where
  -- At least two signals, counted; the anomalies within the window; the confidence within its limit.
  abbrev pub IsWellFormed : CorrelatedEvent F → Type 0
  IsWellFormed e =
      (2 ≤ e.signal_count)
      × (e.signal_count
          ≡ length e.metric_anomalies + length e.log_bursts + length e.service_latency)
      × All (λ a. (s.fl.le e.window_start a.timestamp && s.fl.le a.timestamp e.window_end) ≡ true)
          e.metric_anomalies
      × (s.fl.le e.confidence s.settings.correlation_score_max ≡ true)

  confidence_of_le :
      (anchor : F)
      → IsBoundedBy s.fl s.settings.correlation_score_max
      → s.fl.le (confidence_of s anchor) s.settings.correlation_score_max ≡ true
  unfolding confidence_of
  confidence_of_le anchor laws = laws.round_le _ (smaller _)
    where
      smaller :
          (x : F)
          → s.fl.le
              (min_of s.fl s.settings.correlation_score_max x)
              s.settings.correlation_score_max
            ≡ true
      smaller x = elim (Bool-cases (s.fl.lt x s.settings.correlation_score_max)) [
        | inl below ↦ rw below (laws.lt_le x below)
        | inr above ↦ rw above laws.top_le
      ]

  metrics_in_lem :
      (anchor : F) → All (λ a. in_window s anchor a.timestamp ≡ true) (metrics_in s anchor)
  unfolding metrics_in
  metrics_in_lem anchor =
      All-imp (λ a. Unit {0} × (in_window s anchor a.timestamp ≡ true)) _ _ (λ a h. h.1)
        (All-filter_test (λ _. Unit {0}) (λ a. in_window s anchor a.timestamp) s.metric_anomalies
          (trivial s.metric_anomalies))
    where
      trivial : (l : List (MetricAnomaly F)) → All (λ _. Unit {0}) l
      trivial [] = tt
      trivial (a ∷ l) = (tt, trivial l)

  correlate_loop-IsWellFormed :
      (anchors rest used : List F)
      → IsBoundedBy s.fl s.settings.correlation_score_max
      → All IsWellFormed (correlate_loop s anchors rest used)
  unfolding correlate_loop
  correlate_loop-IsWellFormed anchors [] used laws = tt
  correlate_loop-IsWellFormed anchors (anchor ∷ rest) used laws =
      elim (Bool-cases (is_used s anchor used || ltb (signal_count_of s anchor) 2)) [
        | inl skipped ↦ rw skipped (correlate_loop-IsWellFormed anchors rest used laws)
        | inr opened ↦ rw opened (
          (ground arith, refl, metrics_in_lem anchor, confidence_of_le anchor laws),
          correlate_loop-IsWellFormed anchors rest (filter (in_window s anchor) anchors ++ used)
              laws,
        )
      ]

  -- Each event of `correlate` has at least two signals, which it counts; the anomalies of its metrics
  -- are within its window; its confidence is at most the maximal score, whatever the weights; and no
  -- event has a lower confidence than the next one. Of the floats, `<` is asymmetric and within `<=`,
  -- and rounding does not take a number past that maximum.
  pub correlate-IsWellFormed :
      IsBoundedBy s.fl s.settings.correlation_score_max
      → ((x y : F) → s.fl.lt x y ≡ true → s.fl.lt y x ≡ false)
      → All IsWellFormed (correlate s)
        × IsSorted (λ e d. s.fl.lt d.confidence e.confidence) (correlate s)
  unfolding correlate
  correlate-IsWellFormed laws asym = (
    All-sort_by _ IsWellFormed _
        (correlate_loop-IsWellFormed (anchor_times s) (anchor_times s) [] laws),
    IsSorted-sort_by (λ e d. s.fl.lt d.confidence e.confidence) (λ e d h. asym _ _ h) _,
  )
