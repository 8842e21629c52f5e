-- ===== src/Rca/Tests.antt =====
-- Runs of engine/rca, with whole numbers for floats, and the witness of its theorem.
use becertain.Prelude.{ℕ, ◌≡◌, refl, [], ◌∷◌, none, some}
use becertain.Enums.{Severity}
use becertain.Floats.Sample.{whole as whole_floats}
use becertain.Topology.Graph.{empty_graph, add_call}
use becertain.Correlation.Sample.{whole, runtime, anomaly, burst}
use becertain.Correlation.Temporal.{CorrelatedEvent}
use becertain.Rca.{register}
use becertain.Rca.Names.{
  extract_metric_labels, process_entity_from_metric_name, signals_from_event, corroboration_summary,
  from_keys,
}
use becertain.Rca.Hypothesis.{Incident}

process_run :
    process_entity_from_metric_name "cpu{process.name=\"nginx\", pid='7',x=}" ≡ "nginx(pid=7)"
unfolding process_entity_from_metric_name extract_metric_labels
process_run = refl

summary_run :
    corroboration_summary (λ s. s) runtime ("trace:api" ∷ "metrics" ∷ "metric:cpu" ∷ "x" ∷ [])
    ≡ "2 corroborating signal(s): metrics, traces"
unfolding corroboration_summary
summary_run = refl

abbrev event : CorrelatedEvent ℕ
event = record {
  window_start = 95;
  window_end = 115;
  metric_anomalies = anomaly "cpu" 105 ∷ [];
  log_bursts = burst ∷ [];
  service_latency = record { service = "api"; window_start = none; window_end = none } ∷ [];
  signal_count = 3;
  confidence = 90;
}

signals_run :
    signals_from_event event
    ≡ "metrics" ∷ "metric:cpu" ∷ "logs" ∷ "log:bursts" ∷ "traces" ∷ "trace:api" ∷ []
unfolding signals_from_event from_keys
signals_run = refl

abbrev incident : Incident ℕ
incident = record {
  py = record {
    fl = whole;
    rt = runtime;
    abs = λ x. x;
    log1p = λ x. x;
    hundredths = λ n. n;
    lower = λ s. s;
  };
  floats = whole_floats;
  settings = record {
    rca_deploy_window_seconds = 300;
    rca_deploy_score_cutoff = 65;
    rca_errorprop_max = 95;
    rca_baseline_base = 50;
    rca_baseline_affected_factor = 10;
    rca_weights = [];
    correlation_score_max = 100;
    rca_event_confidence_threshold = 30;
    rca_score_cap = 99;
    rca_severity_weight_threshold = 3;
    rca_log_pattern_score = 60;
    rca_min_confidence_display = 12;
    thresholds = record {
      severity_score_medium = 25;
      severity_score_high = 50;
      severity_score_critical = 75;
    };
  };
  max_depth = 6;
  log_patterns = record { pattern = "out of memory"; severity = Severity.critical } ∷ [];
  error_propagation = record { source_service = "api"; affected_services = "web" ∷ [] } ∷ [];
  correlated_events = event ∷ [];
  graph = some (add_call "web" "api" empty_graph);
  event_registry = some (register (record { service = "api"; timestamp = 100; version = "2" }) []);
}
