-- ===== src/Dedup/Tests.antt =====
-- The grouping of three sample anomalies.
use mathlib.Core.List.{Perm}
use becertain.Prelude.{ℕ, true, List, [], ◌∷◌, ◌≡◌, refl, arith, All}
use becertain.Floats.Sample.{whole}
use becertain.Enums.{Severity, weight}
use becertain.Dedup.{
  MetricAnomaly, AnomalyGroup, sort_anomalies, group_loop, group_metric_anomalies,
}
use becertain.Dedup.Sorting.{IsAscending, IsAscending-sort}
use becertain.Dedup.Groups.{all_members, IsGroup, IsApart, group_metric_anomalies_lem}

abbrev first : MetricAnomaly ℕ ℕ
first = record { metric_name = "cpu"; timestamp = 100; severity = Severity.low; payload = 1 }

abbrev second : MetricAnomaly ℕ ℕ
second = record { metric_name = "cpu"; timestamp = 110; severity = Severity.high; payload = 2 }

abbrev third : MetricAnomaly ℕ ℕ
third = record { metric_name = "disk"; timestamp = 112; severity = Severity.high; payload = 3 }

abbrev anomalies : List (MetricAnomaly ℕ ℕ)
anomalies = third ∷ first ∷ second ∷ []

abbrev groups : List (AnomalyGroup ℕ ℕ)
groups =
    record { representative = second; members = first ∷ second ∷ []; count = 2 }
    ∷ record { representative = third; members = third ∷ []; count = 1 }
    ∷ []

groups_run : group_metric_anomalies whole 60 true anomalies ≡ groups
unfolding group_metric_anomalies sort_anomalies group_loop weight
groups_run = refl

IsAscending-run : IsAscending whole (sort_anomalies whole anomalies)
IsAscending-run = IsAscending-sort whole (λ a b h. ground arith) anomalies

group_metric_anomalies_lem_example :
    let groups' = group_metric_anomalies whole 60 true anomalies in
    (all_members whole 60 true groups' ≡ sort_anomalies whole anomalies)
    × IsAscending whole (all_members whole 60 true groups')
    × Perm (all_members whole 60 true groups') anomalies
    × All (IsGroup whole 60 true) groups'
    × IsApart whole 60 true groups'
group_metric_anomalies_lem_example =
    group_metric_anomalies_lem whole 60 true anomalies (λ a b h. ground arith)
