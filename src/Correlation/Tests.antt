-- ===== src/Correlation/Tests.antt =====
-- Runs of engine/correlation, with whole numbers for floats, and the witnesses of its theorems.
use becertain.Prelude.{ℕ, ◌≡◌, refl, [], ◌∷◌, none, some, All, ltb, map, arith}
use becertain.Prelude.Sorting.{IsSorted, sort_by}
use becertain.Correlation.{safe_float, latency_window, overlap}
use becertain.Correlation.Sample.{whole, runtime, anomaly, burst}
use becertain.Correlation.Services.{find_all, services_of_metric, services_of_burst}
use becertain.Correlation.Temporal.{
  Signals, correlate, correlate_loop, anchor_times, metrics_in, bursts_in, latency_in,
  correlated_services, confidence_of,
}
use becertain.Correlation.Temporal.Bounds.{IsBoundedBy, IsWellFormed, correlate-IsWellFormed}
use becertain.Correlation.Temporal.Covered.{IsCovered, correlate-IsCovered}
use becertain.Correlation.Links.{link_logs_to_metrics}
use becertain.Correlation.Links.Found.{AreLinks, Gives, Gives-link_logs_to_metrics}

abbrev signals : Signals ℕ
signals = record {
  fl = whole;
  rt = runtime;
  lower = λ s. s;
  settings = record {
    correlation_window_seconds = 10;
    correlation_score_max = 100;
    correlation_errors_cap = 35;
    correlation_weight_time = 30;
    correlation_weight_latency = 35;
    correlation_weight_errors = 35;
  };
  metric_anomalies = anomaly "latency{service=\"api\"}" 105 ∷ anomaly "cpu" 500 ∷ [];
  log_bursts = burst ∷ [];
  service_latency = record { service = "api"; window_start = some 120; window_end = some 90 } ∷ [];
  window_seconds = none;
  weight_fn = none;
}

services_run :
    services_of_metric (λ s. s) "up{job = \"db\", service.name='api'}" ≡ "db" ∷ "api" ∷ []
unfolding services_of_metric find_all
services_run = refl

-- One event, of the anomaly at 105, the burst and the latency of the service that the metric names.
correlate_run :
    map {B = ℕ × ℕ × ℕ} (λ e. (e.window_start, e.signal_count, e.confidence)) (correlate signals)
    ≡ (90, 3, 100) ∷ []
unfolding correlate correlate_loop anchor_times metrics_in bursts_in latency_in correlated_services
    confidence_of safe_float latency_window overlap services_of_metric services_of_burst find_all
    sort_by
correlate_run = refl

correlate-IsWellFormed_example :
    All (IsWellFormed signals) (correlate signals)
    × IsSorted (λ e d. ltb d.confidence e.confidence) (correlate signals)
correlate-IsWellFormed_example = correlate-IsWellFormed signals laws (λ x y h. ground arith)
  where
    laws : IsBoundedBy whole 100
    laws = record { lt_le = λ x h. ground arith; top_le = refl; round_le = λ x h. h }

correlate-IsCovered_example : All (IsCovered signals (correlate signals)) (anchor_times signals)
correlate-IsCovered_example = correlate-IsCovered signals (λ x y z e. (ground arith, ground arith))

Gives-link_logs_to_metrics_example :
    Gives whole runtime 90
      (λ links.
        AreLinks whole runtime 90 (anomaly "cpu" 105 ∷ []) (burst ∷ []) links
        × IsSorted (λ k l. ltb l.strength k.strength) links)
      (link_logs_to_metrics whole runtime 90 (anomaly "cpu" 105 ∷ []) (burst ∷ []))
Gives-link_logs_to_metrics_example =
    Gives-link_logs_to_metrics whole runtime 90 (λ x e. ground arith) (anomaly "cpu" 105 ∷ [])
      (burst ∷ []) (λ e. ground arith, tt) (λ x y h. ground arith)
