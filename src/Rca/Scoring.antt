-- ===== src/Rca/Scoring.antt =====
-- engine/rca/scoring.py. A division by zero is `none`.
use becertain.Prelude.{
  ℕ, ◌+◌, String, Bool, true, false, ◌||◌, List, [], ◌∷◌, Option, some, str_eq, if◌then◌else◌, any,
  filter, map, length, max,
}
use becertain.Store.Documents.{◌>>=◌}
use becertain.Enums.{weight}
use becertain.Correlation.{MetricAnomaly, min_of}
use becertain.Correlation.Temporal.{CorrelatedEvent}
use becertain.Rca.{RcaCategory, DeploymentEvent, ErrorPropagation, RcaSettings, Interpreter}
use becertain.Rca.Names.{occurs}

-- `d.get(key, default)`
abbrev pub get_weight : {F : Type 0} → String → List (String × F) → F → F
get_weight key [] default_weight = default_weight
get_weight key ((k, w) ∷ rest) default_weight =
    if str_eq k key then w else get_weight key rest default_weight

module _ {F : Type 0} (py : Interpreter F) (settings : RcaSettings F) where
  abbrev pub zero_score : F
  zero_score = py.fl.of_nat 0

  abbrev pub one : F
  one = py.fl.of_nat 1

  -- `max(a, b)`
  abbrev pub max_of : F → F → F
  max_of a b = if py.fl.lt a b then b else a

  -- `min(...)` of a list that is not empty
  abbrev pub least : F → List F → F
  least x [] = x
  least x (y ∷ ys) = least (min_of py.fl x y) ys

  abbrev pub lag : F → DeploymentEvent F → F
  lag anomaly_ts d = py.abs (py.fl.sub d.timestamp anomaly_ts)

  abbrev pub nearby : F → List (DeploymentEvent F) → List (DeploymentEvent F)
  nearby anomaly_ts deployments =
      filter (λ d. py.fl.le (lag anomaly_ts d) settings.rca_deploy_window_seconds) deployments

  abbrev pub lag_score : List F → Option F
  lag_score [] = some zero_score
  lag_score (x ∷ lags) = do
    ratio ← py.fl.div (least x lags) settings.rca_deploy_window_seconds
    some (py.fl.round 3 (max_of zero_score (py.fl.sub one ratio)))

  unfoldable pub score_deployment_correlation : F → List (DeploymentEvent F) → Option F
  score_deployment_correlation anomaly_ts deployments =
      lag_score (map (lag anomaly_ts) (nearby anomaly_ts deployments))

  abbrev pub count_affected : List ErrorPropagation → ℕ
  count_affected [] = 0
  count_affected (p ∷ ps) = length p.affected_services + count_affected ps

  unfoldable pub score_error_propagation : List ErrorPropagation → F
  score_error_propagation [] = zero_score
  score_error_propagation (p ∷ ps) = py.fl.round 3 (
      min_of py.fl settings.rca_errorprop_max (
        py.fl.add settings.rca_baseline_base (
          py.fl.mul (py.fl.of_nat (count_affected (p ∷ ps)))
            settings.rca_baseline_affected_factor)))

  -- `min(1.0, math.log1p(n) / math.log1p(scale))`
  abbrev pub log_factor : ℕ → ℕ → Option F
  log_factor n scale = do
    ratio ← py.fl.div (py.log1p (py.fl.of_nat n)) (py.log1p (py.fl.of_nat scale))
    some (min_of py.fl one ratio)

  -- `max(..., default=1)`
  abbrev pub heaviest : List (MetricAnomaly F) → ℕ
  heaviest [] = 1
  heaviest (a ∷ []) = weight a.severity
  heaviest (a ∷ b ∷ as') = max (weight a.severity) (heaviest (b ∷ as'))

  unfoldable pub score_correlated_event : CorrelatedEvent F → Option F
  score_correlated_event event = do
    let configured = settings.rca_weights
    let metric_weight =
        get_weight "metrics" configured (get_weight "latency" configured (py.hundredths 40))
    let log_weight = get_weight "logs" configured (get_weight "log" configured (py.hundredths 25))
    let trace_weight =
        get_weight "traces" configured (get_weight "errors" configured (py.hundredths 35))
    metric_factor ← log_factor (length event.metric_anomalies) 200
    burst_factor ← log_factor (length event.log_bursts) 50
    trace_factor ← log_factor (length event.service_latency) 50
    eighth ← py.fl.div (py.fl.of_nat (heaviest event.metric_anomalies)) (py.fl.of_nat 8)
    let severity_boost = py.fl.mul (py.hundredths 10) (min_of py.fl one eighth)
    let components =
        py.fl.add
          (py.fl.add (py.fl.mul metric_weight metric_factor) (py.fl.mul log_weight burst_factor))
          (py.fl.mul trace_weight trace_factor)
    let blended =
        py.fl.mul components
          (py.fl.add (py.hundredths 70) (py.fl.mul (py.hundredths 30) event.confidence))
    some (
        py.fl.round 3
          (min_of py.fl settings.correlation_score_max (py.fl.add blended severity_boost)))

  abbrev pub any_name : List String → CorrelatedEvent F → Bool
  any_name parts event =
      any (λ a. any (λ part. occurs part a.metric_name) parts) event.metric_anomalies

  abbrev pub is_any : {A : Type 0} → List A → Bool
  is_any [] = false
  is_any (_ ∷ _) = true

  -- What follows the score of the deployments.
  abbrev pub category_of : F → CorrelatedEvent F → RcaCategory
  category_of deploy_score event =
      if py.fl.lt settings.rca_deploy_score_cutoff deploy_score
      then RcaCategory.deployment
      else if any_name ("memory" ∷ "mem" ∷ []) event || any_name ("cpu" ∷ []) event
      then RcaCategory.resource_exhaustion
      else if is_any event.service_latency
      then RcaCategory.dependency_failure
      else if any_name ("request" ∷ "rate" ∷ []) event
      then RcaCategory.traffic_surge
      else RcaCategory.unknown

  unfoldable pub categorize : CorrelatedEvent F → List (DeploymentEvent F) → Option RcaCategory
  categorize event deployments = do
    deploy_score ← score_deployment_correlation event.window_start deployments
    some (category_of deploy_score event)
