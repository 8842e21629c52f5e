-- ===== src/Rca.antt =====
-- engine/rca/hypothesis.py, engine/rca/scoring.py and engine/events/registry.py: the data of the root
-- causes, and the settings that are read. An exception that ends a function is `none`.
pub mod Names
pub mod Scoring
pub mod Hypothesis
pub mod Generate
mod Tests
use becertain.Prelude.{ℕ, String, List, [], ◌∷◌, ◌++◌, Option, Bool, filter, ◌&&◌, str_eq}
use becertain.Enums.{Severity, Thresholds}
use becertain.Floats.{Floats}
use becertain.Value.{Runtime}
use becertain.Correlation.{Arithmetic}

pub data RcaCategory : Type 0 where
  deployment resource_exhaustion dependency_failure traffic_surge : RcaCategory
  error_propagation slo_burn unknown : RcaCategory

-- `category.value`
abbrev pub category_value : RcaCategory → String
category_value deployment = "deployment"
category_value resource_exhaustion = "resource_exhaustion"
category_value dependency_failure = "dependency_failure"
category_value traffic_surge = "traffic_surge"
category_value error_propagation = "error_propagation"
category_value slo_burn = "slo_burn"
category_value unknown = "unknown"

-- The author and the other fields of an event that no function reads are left out.
pub record DeploymentEvent (F : Type 0) : Type 0 where
  pub service : String
  pub timestamp : F
  pub version : String

pub record ErrorPropagation : Type 0 where
  pub source_service : String
  pub affected_services : List String

pub record LogPattern : Type 0 where
  pub pattern : String
  pub severity : Severity

pub record RootCause (F : Type 0) : Type 0 where
  pub hypothesis : String
  pub confidence : F
  pub severity : Severity
  pub category : RcaCategory
  pub evidence : List String
  pub contributing_signals : List String
  pub affected_services : List String
  pub recommended_action : String
  pub deployment_event : Option (DeploymentEvent F)
  pub corroboration_summary : String

-- The fields of `settings`; `correlation_score_max` is that of the correlation.
pub record RcaSettings (F : Type 0) : Type 0 where
  pub rca_deploy_window_seconds : F
  pub rca_deploy_score_cutoff : F
  pub rca_errorprop_max : F
  pub rca_baseline_base : F
  pub rca_baseline_affected_factor : F
  pub rca_weights : List (String × F)
  pub correlation_score_max : F
  pub rca_event_confidence_threshold : F
  pub rca_score_cap : F
  pub rca_severity_weight_threshold : ℕ
  pub rca_log_pattern_score : F
  pub rca_min_confidence_display : F
  pub thresholds : Thresholds F

-- The interpreter: floats with `abs` and `math.log1p`, `hundredths n` for the literal n/100, the texts.
pub record Interpreter (F : Type 0) : Type 0 where
  pub fl : Arithmetic F
  pub rt : Runtime F
  pub abs : F → F
  pub log1p : F → F
  pub hundredths : ℕ → F
  pub lower : String → String

-- `EventRegistry`, by its list of events.
module _ {F : Type 0} where
  abbrev pub register : DeploymentEvent F → List (DeploymentEvent F) → List (DeploymentEvent F)
  register event events = events ++ (event ∷ [])

  abbrev pub events_in_window :
      Arithmetic F → F → F → List (DeploymentEvent F) → List (DeploymentEvent F)
  events_in_window fl start end events =
      filter (λ e. fl.le start e.timestamp && fl.le e.timestamp end) events

  abbrev pub events_for_service : String → List (DeploymentEvent F) → List (DeploymentEvent F)
  events_for_service service events = filter (λ e. str_eq e.service service) events

  abbrev pub clear_events : List (DeploymentEvent F) → List (DeploymentEvent F)
  clear_events events = []
