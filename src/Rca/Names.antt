-- ===== src/Rca/Names.antt =====
-- The texts of engine/rca/hypothesis.py: the labels in a metric's name, the process that it names,
-- the signals of an event and their summary.
use Prim.Native.String.{◌++◌ as ◌<>◌}
use Prim.Native.Char.{code}
use text.Mathlib.Text.{starts_with}
use becertain.Prelude.{
  ℕ, String, Bool, not, ◌||◌, List, [], ◌∷◌, ◌++◌, Option, none, some, str_eq, ◌==◌, if◌then◌else◌,
  strip, map, filter, take, contains, length,
}
use becertain.Value.{Runtime, int, pos}
use becertain.Security.Texts.{split_commas, sorted_set}
use becertain.Topology.Graph.{add_element}
use becertain.Correlation.Services.{strip_char}
use becertain.Correlation.Temporal.{CorrelatedEvent}

-- `sep.join(...)`
abbrev pub join_by : String → List String → String
join_by sep [] = ""
join_by sep (s ∷ []) = s
join_by sep (s ∷ t ∷ ts) = s <> (sep <> join_by sep (t ∷ ts))

-- `list(dict.fromkeys(...))`, from what was kept so far
unfoldable pub from_keys : List String → List String → List String
from_keys kept [] = kept
from_keys kept (s ∷ ss) = from_keys (add_element s kept) ss

-- `part in text`
abbrev pub occurs : String → String → Bool
occurs part String.[] = str_eq part ""
occurs part (String.◌∷◌ c s) = starts_with (String.◌∷◌ c s) part || occurs part s

-- `s.split(c, 1)` where `c` occurs
abbrev pub split_once : ℕ → String → Option (String × String)
split_once c String.[] = none
split_once c (String.◌∷◌ x s) =
    let rest = split_once c s in
    if code x == c
    then some ("", s)
    else elim rest [ none ↦ none | some (a, b) ↦ some (String.◌∷◌ x a, b) ]

-- `_METRIC_LABEL_RE.search(text)`: what stands between the first `{` and the next `}`
abbrev pub label_text : String → Option String
label_text text = elim (split_once b'{' text) [
  | none ↦ none
  | some (_, rest) ↦ elim (split_once b'}' rest) [ none ↦ none | some (labels, _) ↦ some labels ]
]

-- `d[key] = value`
abbrev pub set_label : String → String → List (String × String) → List (String × String)
set_label key value [] = (key, value) ∷ []
set_label key value ((k, v) ∷ rest) =
    if str_eq k key then (k, value) ∷ rest else (k, v) ∷ set_label key value rest

abbrev pub add_label : String → List (String × String) → List (String × String)
add_label token labels = elim (split_once b'=' token) [
  | none ↦ labels
  | some (key, value) ↦
      let k = strip key in
      let v = strip_char b'\'' (strip_char b'"' (strip value)) in
      if str_eq k "" || str_eq v "" then labels else set_label k v labels
]

abbrev pub add_labels : List String → List (String × String) → List (String × String)
add_labels [] labels = labels
add_labels (token ∷ tokens) labels = add_labels tokens (add_label token labels)

-- `_extract_metric_labels`
unfoldable pub extract_metric_labels : String → List (String × String)
extract_metric_labels metric_name = elim (label_text metric_name) [
  | none ↦ []
  | some labels ↦
      let raw_labels = strip labels in
      if str_eq raw_labels "" then [] else add_labels (split_commas raw_labels) []
]

-- `labels.get(key)`, or the empty text
abbrev pub label_of : String → List (String × String) → String
label_of key [] = ""
label_of key ((k, v) ∷ rest) = if str_eq k key then v else label_of key rest

-- The first of the keys with a value.
abbrev pub first_label : List String → List (String × String) → String
first_label [] labels = ""
first_label (key ∷ keys) labels =
    let value = label_of key labels in
    let others = first_label keys labels in if str_eq value "" then others else strip value

abbrev pub process_name_keys : List String
process_name_keys =
    "process.executable.name" ∷ "process_executable_name" ∷ "process.command" ∷ "process_command"
    ∷ "process.command_line" ∷ "process_command_line" ∷ "process.name" ∷ "process_name" ∷ "process"
    ∷ []

abbrev pub process_pid_keys : List String
process_pid_keys = "process.pid" ∷ "process_pid" ∷ "pid" ∷ []

-- `_process_entity_from_metric_name`
unfoldable pub process_entity_from_metric_name : String → String
process_entity_from_metric_name metric_name =
    let labels = extract_metric_labels metric_name in
    let process_name = first_label process_name_keys labels in
    let process_pid = first_label process_pid_keys labels in
    if str_eq process_name ""
    then ""
    else if str_eq process_pid ""
    then process_name
    else process_name <> ("(pid=" <> (process_pid <> ")"))

-- The texts that are not empty.
abbrev pub named : List String → List String
named names = filter (λ name. not (str_eq name "")) names

abbrev pub when_any : {A : Type 0} → List A → List String → List String
when_any [] parts = []
when_any (_ ∷ _) parts = parts

-- The signals, or the one that stands for none.
abbrev pub or_metrics : List String → List String
or_metrics [] = "metrics" ∷ []
or_metrics (s ∷ ss) = from_keys [] (s ∷ ss)

-- The root of a signal, if it has one.
abbrev pub root_of : String → List String
root_of text =
    if contains text ("metric" ∷ "metrics" ∷ [])
    then "metrics" ∷ []
    else if contains text ("log" ∷ "logs" ∷ [])
    then "logs" ∷ []
    else if contains text ("trace" ∷ "traces" ∷ [])
    then "traces" ∷ []
    else if contains text ("event" ∷ "events" ∷ "deployment" ∷ "deploy" ∷ [])
    then "events" ∷ []
    else []

module _ {F : Type 0} where
  -- `_signals_from_event`
  abbrev pub metric_signals : CorrelatedEvent F → List String
  metric_signals event =
      let metric_names = from_keys [] (named (map (λ a. a.metric_name) event.metric_anomalies)) in
      when_any metric_names ("metrics" ∷ map (λ name. "metric:" <> name) (take 3 metric_names))

  abbrev pub trace_signals : CorrelatedEvent F → List String
  trace_signals event =
      let services = from_keys [] (named (map (λ l. l.service) event.service_latency)) in
      when_any services ("traces" ∷ map (λ service. "trace:" <> service) (take 2 services))

  unfoldable pub signals_from_event : CorrelatedEvent F → List String
  signals_from_event event = or_metrics (
      metric_signals event
      ++ (when_any event.log_bursts ("logs" ∷ "log:bursts" ∷ []) ++ trace_signals event))

-- `text.split(":", 1)[0]`
abbrev pub before_colon : String → String
before_colon text = elim (split_once b':' text) [ none ↦ text | some (start, _) ↦ start ]

module _ {F : Type 0} (lower : String → String) (rt : Runtime F) where
  abbrev pub roots_of : List String → List String
  roots_of [] = []
  roots_of (signal ∷ signals) = root_of (before_colon (lower (strip signal))) ++ roots_of signals

  -- `_corroboration_summary`
  unfoldable pub corroboration_summary : List String → String
  corroboration_summary signals = elim (sorted_set (roots_of signals)) [
    | [] ↦ "single-signal evidence"
    | root ∷ roots ↦
        rt.str_of (int (pos (length (root ∷ roots))))
        <> (" corroborating signal(s): " <> join_by ", " (root ∷ roots))
  ]
