-- ===== src/Rca/Hypothesis.antt =====
-- engine/rca/hypothesis.py: `generate`, from the events, the propagation of errors and the patterns of
-- logs to the causes that are shown.
use Prim.Native.String.{◌++◌ as ◌<>◌}
use becertain.Prelude.{
  ℕ, String, List, [], ◌∷◌, ◌++◌, Option, none, some, if◌then◌else◌, map, length, take, text_or,
}
use becertain.Store.Documents.{◌>>=◌}
use becertain.Value.{int, pos}
use becertain.Enums.{from_score}
use becertain.Floats.{Floats}
use becertain.Security.Texts.{sorted_set}
use becertain.Topology.Graph.{DependencyGraph, blast_radius}
use becertain.Correlation.{ServiceLatency, min_of}
use becertain.Correlation.Temporal.{CorrelatedEvent}
use becertain.Rca.{
  RcaCategory, category_value, DeploymentEvent, ErrorPropagation, LogPattern, RootCause,
  RcaSettings, Interpreter, events_in_window, events_for_service,
}
use becertain.Rca.Names.{
  join_by, process_entity_from_metric_name, signals_from_event, corroboration_summary, named,
  when_any,
}
use becertain.Rca.Scoring.{score_deployment_correlation, score_correlated_event, categorize, lag}

-- `_action_for_category`
unfoldable pub action_for_category : RcaCategory → String → String
action_for_category RcaCategory.deployment service =
    "Rollback recent deployment for " <> (text_or service "affected service" <> ".")
action_for_category RcaCategory.resource_exhaustion service =
    "Check resource limits, scale horizontally or increase quotas."
action_for_category RcaCategory.dependency_failure service =
    "Inspect downstream dependencies and circuit breakers."
action_for_category RcaCategory.traffic_surge service =
    "Verify rate limits, auto-scaling triggers, and CDN caching."
action_for_category RcaCategory.error_propagation service =
    "Isolate " <> (text_or service "source service" <> " and check recent changes.")
action_for_category RcaCategory.slo_burn service =
    "Immediate incident response; error budget critical."
action_for_category RcaCategory.unknown service = "Review correlated signals and recent changes."

-- The arguments of `generate`, with the interpreter and the settings. `max_depth` is the default of
-- `blast_radius`; `floats` is what `Severity.from_score` compares with.
pub record Incident (F : Type 0) : Type 0 where
  pub py : Interpreter F
  pub floats : Floats F
  pub settings : RcaSettings F
  pub max_depth : ℕ
  pub log_patterns : List LogPattern
  pub error_propagation : List ErrorPropagation
  pub correlated_events : List (CorrelatedEvent F)
  pub graph : Option DependencyGraph
  pub event_registry : Option (List (DeploymentEvent F))

module _ {F : Type 0} (i : Incident F) where
  abbrev pub deployments : List (DeploymentEvent F)
  deployments = elim i.event_registry [ none ↦ [] | some events ↦ events ]

  -- The deployments around the start of an event.
  abbrev pub around : CorrelatedEvent F → List (DeploymentEvent F) → List (DeploymentEvent F)
  around event events =
      let fl = i.py.fl in
      let window_seconds = i.settings.rca_deploy_window_seconds in
      events_in_window fl (fl.sub event.window_start window_seconds)
        (fl.add event.window_start window_seconds) events

  -- `min(events, key=_deployment_distance)`, of the first event and the others
  abbrev pub closest : F → DeploymentEvent F → List (DeploymentEvent F) → DeploymentEvent F
  closest start d [] = d
  closest start d (e ∷ events) =
      closest start
        (if i.py.fl.lt (lag i.py i.settings start e) (lag i.py i.settings start d) then e else d)
        events

  abbrev pub closest_or :
      F → Option (DeploymentEvent F) → List (DeploymentEvent F) → Option (DeploymentEvent F)
  closest_or start other [] = other
  closest_or start other (d ∷ events) = some (closest start d events)

  -- The affected services, the root service and the deployment, by the first latency of the event.
  abbrev pub Reach : Type 0
  Reach = List String × String × Option (DeploymentEvent F)

  abbrev pub reach_of :
      CorrelatedEvent F
      → Option (DeploymentEvent F)
      → List (ServiceLatency F)
      → Option DependencyGraph
      → Option Reach
  reach_of event deploy_event (latency ∷ _) (some graph) = do
    blast ← blast_radius latency.service i.max_depth graph
    some (
      blast.affected_downstream,
      latency.service,
      closest_or event.window_start deploy_event
          (around event (events_for_service latency.service deployments)),
    )
  reach_of event deploy_event _ _ = some ([], "", deploy_event)

  abbrev pub count_text : ℕ → String
  count_text n = i.py.rt.str_of (int (pos n))

  abbrev pub deployment_part : Option (DeploymentEvent F) → List String
  deployment_part none = []
  deployment_part (some d) = ("deployment of " <> (d.service <> (" v" <> d.version))) ∷ []

  abbrev pub process_entities : CorrelatedEvent F → List String
  process_entities event = take 2 (
      sorted_set
        (named (map (λ a. process_entity_from_metric_name a.metric_name) event.metric_anomalies)))

  abbrev pub parts_of : CorrelatedEvent F → Option (DeploymentEvent F) → List String
  parts_of event deploy_event =
      let metric_names = take 2 (sorted_set (map (λ a. a.metric_name) event.metric_anomalies)) in
      let processes = process_entities event in
      let svc_names = take 2 (sorted_set (map (λ l. l.service) event.service_latency)) in
      deployment_part deploy_event
      ++ (when_any metric_names (("metric anomaly in " <> join_by ", " metric_names) ∷ [])
          ++ (when_any processes (("process hotspot in " <> join_by ", " processes) ∷ [])
              ++ (when_any svc_names (("latency spike in " <> join_by ", " svc_names) ∷ [])
                  ++ when_any event.log_bursts
                      ((count_text (length event.log_bursts) <> " log burst(s)") ∷ []))))

  abbrev pub summary : List String → String
  summary signals = corroboration_summary i.py.lower i.py.rt signals

  -- The body of the loop over the events.
  unfoldable pub cause_of_event : CorrelatedEvent F → Option (RootCause F)
  cause_of_event event = do
    category ← categorize i.py i.settings event deployments
    base_score ← score_correlated_event i.py i.settings event
    deploy_score ← score_deployment_correlation i.py i.settings event.window_start deployments
    let fl = i.py.fl
    let confidence = fl.round 3 (
        min_of fl i.settings.rca_score_cap
          (fl.add base_score (fl.mul deploy_score (i.py.hundredths 20))))
    let near = closest_or event.window_start none (around event deployments)
    reach ← reach_of event near event.service_latency i.graph
    let (affected, root_svc, deploy_event) = reach
    let signals = signals_from_event event
    some record {
      hypothesis =
          "["
          <> (category_value category
              <> ("] Correlated incident: "
                  <> text_or (join_by " + " (parts_of event deploy_event)) "multi-signal event"));
      confidence = confidence;
      severity = from_score i.floats i.settings.thresholds confidence;
      category = category;
      evidence =
          ("metrics=" <> count_text (length event.metric_anomalies))
          ∷ ("process_entities=" <> count_text (length (process_entities event)))
          ∷ ("log_bursts=" <> count_text (length event.log_bursts))
          ∷ ("latency_services=" <> count_text (length event.service_latency))
          ∷ [];
      contributing_signals = signals;
      affected_services = affected;
      recommended_action = action_for_category category root_svc;
      deployment_event = deploy_event;
      corroboration_summary = summary signals;
    }
