-- ===== src/Rca/Generate.antt =====
-- engine/rca/hypothesis.py: `generate` as a whole, and `_dedupe_causes`. The dict of the latter is the
-- list of its values in the order of their keys, each key being that of its value.
pub mod Merged
pub mod Ranked
pub mod Returned
use Prim.Native.String.{◌++◌ as ◌<>◌}
use becertain.Prelude.{
  ℕ, String, Bool, true, false, not, ◌&&◌, ◌||◌, List, [], ◌∷◌, ◌++◌, Option, none, some, str_eq,
  if◌then◌else◌, filter, map, length, take, leb, text_take,
}
use becertain.Prelude.Sorting.{sort_by}
use becertain.Store.Documents.{◌>>=◌}
use becertain.Value.{str}
use becertain.Enums.{Severity, weight}
use becertain.Topology.Graph.{DependencyGraph}
use becertain.Topology.Upstream.{find_upstream_roots}
use becertain.Correlation.{Arithmetic}
use becertain.Correlation.Temporal.{CorrelatedEvent}
use becertain.Rca.{
  RcaCategory, category_value, ErrorPropagation, LogPattern, RootCause, Interpreter,
}
use becertain.Rca.Names.{join_by, from_keys, split_once}
use becertain.Rca.Scoring.{score_error_propagation}
use becertain.Rca.Hypothesis.{Incident, cause_of_event, action_for_category, summary, count_text}

module _ {F : Type 0} (fl : Arithmetic F) where
  abbrev pub entry_score : String → F → F
  entry_score text total = elim (split_once b'=' text) [
    | none ↦ total
    | some (_, number) ↦ elim (fl.to_float (str number)) [ none ↦ total | some x ↦ fl.add total x ]
  ]

  -- `_evidence_score`, from the total so far
  unfoldable pub evidence_score : List String → F → F
  evidence_score [] total = total
  evidence_score (text ∷ entries) total = evidence_score entries (entry_score text total)

  abbrev pub score_of_evidence : RootCause F → F
  score_of_evidence cause = evidence_score cause.evidence (fl.of_nat 0)

  -- Whether the new cause wins over the current one of its key.
  abbrev pub wins : RootCause F → RootCause F → Bool
  wins cause current =
      if fl.lt current.confidence cause.confidence
      then true
      else if fl.lt cause.confidence current.confidence
      then false
      else fl.le (score_of_evidence current) (score_of_evidence cause)

  abbrev pub with_services_of : RootCause F → RootCause F → RootCause F
  with_services_of winner loser = record winner {
    affected_services = from_keys [] (winner.affected_services ++ loser.affected_services);
  }

  unfoldable pub merged : RootCause F → RootCause F → RootCause F
  merged cause current =
      if wins cause current then with_services_of cause current else with_services_of current cause

  abbrev pub same_key : RootCause F → RootCause F → Bool
  same_key a b =
      str_eq (category_value a.category) (category_value b.category)
      && str_eq a.hypothesis b.hypothesis

  -- one round of the loop
  unfoldable pub select_cause : RootCause F → List (RootCause F) → List (RootCause F)
  select_cause cause [] = cause ∷ []
  select_cause cause (current ∷ selected) =
      if same_key cause current
      then merged cause current ∷ selected
      else current ∷ select_cause cause selected

  unfoldable pub dedupe_causes : List (RootCause F) → List (RootCause F) → List (RootCause F)
  dedupe_causes [] selected = selected
  dedupe_causes (cause ∷ causes) selected = dedupe_causes causes (select_cause cause selected)

  -- `causes.sort(key=lambda c: c.confidence, reverse=True)`
  abbrev pub below : RootCause F → RootCause F → Bool
  below b a = fl.lt a.confidence b.confidence

  abbrev pub low_confidence : RootCause F → RootCause F
  low_confidence top = record top { hypothesis = "[low_confidence] " <> top.hypothesis }

  abbrev pub or_top : List (RootCause F) → List (RootCause F) → List (RootCause F)
  or_top (c ∷ filtered) causes = c ∷ filtered
  or_top [] [] = []
  or_top [] (top ∷ causes) = low_confidence top ∷ []

  -- What `generate` does with its causes.
  unfoldable pub shown_causes : F → List (RootCause F) → List (RootCause F)
  shown_causes min_conf causes =
      let sorted = sort_by below (dedupe_causes causes []) in
      or_top (filter (λ c. fl.le min_conf c.confidence) sorted) sorted

-- `graph.find_upstream_roots(svc) if graph else []`
abbrev pub upstream_of : String → Option DependencyGraph → Option (List String)
upstream_of service none = some []
upstream_of service (some graph) = find_upstream_roots service graph

module _ {F : Type 0} (i : Incident F) where
  unfoldable pub event_causes : List (CorrelatedEvent F) → Option (List (RootCause F))
  event_causes [] = some []
  event_causes (event ∷ events) =
      let others = event_causes events in
      if i.py.fl.lt event.confidence i.settings.rca_event_confidence_threshold
      then others
      else cause_of_event i event >>= (λ cause. others >>= (λ causes. some (cause ∷ causes)))

  unfoldable pub cause_of_propagation : ErrorPropagation → Option (RootCause F)
  cause_of_propagation prop = do
    upstream ← upstream_of prop.source_service i.graph
    let signals = ("trace:propagation:" <> prop.source_service) ∷ []
    some record {
      hypothesis =
          "[error_propagation] Errors originating from "
          <> (prop.source_service
              <> (", cascading to " <> join_by ", " (take 3 prop.affected_services)));
      confidence = score_error_propagation i.py i.settings (prop ∷ []);
      severity = Severity.high;
      category = RcaCategory.error_propagation;
      evidence = [];
      contributing_signals = signals;
      affected_services = from_keys [] (upstream ++ prop.affected_services);
      recommended_action = action_for_category RcaCategory.error_propagation prop.source_service;
      deployment_event = none;
      corroboration_summary = summary i signals;
    }

  unfoldable pub propagation_causes : List ErrorPropagation → Option (List (RootCause F))
  propagation_causes [] = some []
  propagation_causes (prop ∷ props) = do
    cause ← cause_of_propagation prop
    causes ← propagation_causes props
    some (cause ∷ causes)

  unfoldable pub pattern_causes : List LogPattern → List (RootCause F)
  pattern_causes [] = []
  pattern_causes (first ∷ others) =
      let signals = map (λ p. "log:" <> text_take 40 p.pattern) (take 3 (first ∷ others)) in
      record {
        hypothesis =
            "[log_pattern] "
            <> (count_text i (length (first ∷ others))
                <> (" critical pattern(s): " <> text_take 80 first.pattern));
        confidence = i.settings.rca_log_pattern_score;
        severity = Severity.high;
        category = RcaCategory.unknown;
        evidence = [];
        contributing_signals = signals;
        affected_services = [];
        recommended_action = "Review high-severity log patterns for error root cause.";
        deployment_event = none;
        corroboration_summary = summary i signals;
      }
      ∷ []

  -- The causes that `generate` collects.
  unfoldable pub all_causes : Option (List (RootCause F))
  all_causes = do
    of_events ← event_causes i.correlated_events
    of_propagation ← propagation_causes i.error_propagation
    some (
        of_events
        ++ (of_propagation
            ++ pattern_causes (
                filter (λ p. leb i.settings.rca_severity_weight_threshold (weight p.severity))
                  i.log_patterns)))

  unfoldable pub generate : Option (List (RootCause F))
  generate = do
    causes ← all_causes
    some (shown_causes i.py.fl i.settings.rca_min_confidence_display causes)
