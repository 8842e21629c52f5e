-- ===== src/Dedup.antt =====
-- engine/dedup/grouping.py: anomalies that are close in time, as groups.
pub mod Sorting
pub mod Matches
pub mod Groups
mod Tests
use becertain.Prelude.{
  ℕ, ◌+◌, String, Bool, true, false, not, ◌||◌, ◌&&◌, List, [], ◌∷◌, ◌++◌, if◌then◌else◌, str_eq,
  ltb,
}
use becertain.Floats.{Floats}
use becertain.Enums.{Severity, weight}

-- A `MetricAnomaly`, as far as the grouping reads it; `payload` is the rest.
pub record MetricAnomaly (F A : Type 0) : Type 0 where
  pub metric_name : String
  pub timestamp : F
  pub severity : Severity
  pub payload : A

pub record AnomalyGroup (F A : Type 0) : Type 0 where
  pub representative : MetricAnomaly F A
  pub members : List (MetricAnomaly F A)
  pub count : ℕ

module _ {F A : Type 0} (fl : Floats F) where
  -- `sorted(anomalies, key=lambda a: a.timestamp)`; the sort is stable.
  abbrev pub insert : MetricAnomaly F A → List (MetricAnomaly F A) → List (MetricAnomaly F A)
  insert a [] = a ∷ []
  insert a (b ∷ bs) = if fl.lt b.timestamp a.timestamp then b ∷ insert a bs else a ∷ b ∷ bs

  unfoldable pub sort_anomalies : List (MetricAnomaly F A) → List (MetricAnomaly F A)
  sort_anomalies [] = []
  sort_anomalies (a ∷ as') = insert a (sort_anomalies as')

  abbrev pub single : MetricAnomaly F A → AnomalyGroup F A
  single a = record { representative = a; members = a ∷ []; count = 1 }

  -- `same_metric and close_in_time`
  abbrev pub joins : F → Bool → MetricAnomaly F A → MetricAnomaly F A → Bool
  joins time_window by_metric rep a =
      (not by_metric || str_eq a.metric_name rep.metric_name)
      && fl.le (fl.abs (fl.sub a.timestamp rep.timestamp)) time_window

  abbrev pub heavier : MetricAnomaly F A → MetricAnomaly F A → MetricAnomaly F A
  heavier rep a = if ltb (weight rep.severity) (weight a.severity) then a else rep

  abbrev pub join : AnomalyGroup F A → MetricAnomaly F A → AnomalyGroup F A
  join current a = record {
    representative = heavier current.representative a;
    members = current.members ++ (a ∷ []);
    count = current.count + 1;
  }

  unfoldable pub group_loop :
      F
      → Bool
      → List (MetricAnomaly F A)
      → AnomalyGroup F A
      → List (AnomalyGroup F A)
      → List (AnomalyGroup F A)
  group_loop time_window by_metric [] current groups = groups ++ (current ∷ [])
  group_loop time_window by_metric (a ∷ as') current groups =
      if joins time_window by_metric current.representative a
      then group_loop time_window by_metric as' (join current a) groups
      else group_loop time_window by_metric as' (single a) (groups ++ (current ∷ []))

  unfoldable pub group_metric_anomalies :
      F → Bool → List (MetricAnomaly F A) → List (AnomalyGroup F A)
  group_metric_anomalies time_window by_metric anomalies = elim (sort_anomalies anomalies) [
    | [] ↦ []
    | a ∷ as' ↦ group_loop time_window by_metric as' (single a) []
  ]
