-- ===== src/Dedup/Matches.antt =====
-- engine/dedup/grouping.py: what joining a group means, and how a group comes together.
use becertain.Prelude.{
  ◌≤◌, ◌<◌, ◌≢◌, ◌⊎◌, Bool, true, false, List, [], ◌∷◌, ◌++◌, ◌≡◌, arith, Bool-cases, inl, inr,
  eq_iff,
}
use becertain.Floats.{Floats}
use becertain.Enums.{weight}
use becertain.Dedup.{MetricAnomaly, joins}

module _ {F A : Type 0} (fl : Floats F) (time_window : F) (by_metric : Bool) where
  -- The two are close in time, and with `by_metric` of one metric.
  abbrev pub IsMatch : MetricAnomaly F A → MetricAnomaly F A → Type 0
  IsMatch rep a =
      (fl.le (fl.abs (fl.sub a.timestamp rep.timestamp)) time_window ≡ true)
      × (by_metric ≡ true → a.metric_name ≡ rep.metric_name)

  -- The two are not close in time, or with `by_metric` of two metrics.
  abbrev pub IsMismatch : MetricAnomaly F A → MetricAnomaly F A → Type 0
  IsMismatch rep a =
      (fl.le (fl.abs (fl.sub a.timestamp rep.timestamp)) time_window ≡ false)
      ⊎ ((by_metric ≡ true) × (a.metric_name ≢ rep.metric_name))

  -- How members come together: each one after the first matches the representative of those before
  -- it, and takes its place if it is more severe.
  pub data IsGathered : List (MetricAnomaly F A) → MetricAnomaly F A → Type 0 where
    alone : (a : MetricAnomaly F A) → IsGathered (a ∷ []) a
    follows :
        (before all : List (MetricAnomaly F A)) (rep a : MetricAnomaly F A)
        → IsGathered before rep
        → IsMatch rep a
        → weight a.severity ≤ weight rep.severity
        → all ≡ before ++ (a ∷ [])
        → IsGathered all rep
    leads :
        (before all : List (MetricAnomaly F A)) (rep a : MetricAnomaly F A)
        → IsGathered before rep
        → IsMatch rep a
        → weight rep.severity < weight a.severity
        → all ≡ before ++ (a ∷ [])
        → IsGathered all a

  pub joins-IsMatch :
      (rep a : MetricAnomaly F A) → joins fl time_window by_metric rep a ≡ true → IsMatch rep a
  joins-IsMatch rep a h =
      (ground arith, λ named. ground (arith, eq_iff a.metric_name rep.metric_name))

  pub joins-IsMismatch :
      (rep a : MetricAnomaly F A) → joins fl time_window by_metric rep a ≡ false → IsMismatch rep a
  joins-IsMismatch rep a h =
      elim (Bool-cases (fl.le (fl.abs (fl.sub a.timestamp rep.timestamp)) time_window)) [
        | inr far ↦ inl far
        | inl near ↦
            inr
              (ground arith, λ same. absurd (ground (arith, eq_iff a.metric_name rep.metric_name)))
      ]
