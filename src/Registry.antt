-- ===== src/Registry.antt =====
-- engine/registry.py: the weights of the signals of each tenant, in the process and in the store.
-- Each call of `TenantRegistry` is one step: no other call comes between its awaits.
-- A whole number in place of a weight is in the range of floats.
pub mod Tenants
pub mod Weighted
pub mod Calls
pub mod Isolated
pub mod Evicted
pub mod Tests
use becertain.Prelude.{
  ℕ, ◌+◌, String, Bool, true, false, not, ◌&&◌, List, [], ◌∷◌, Option, none, some, str_eq,
  if◌then◌else◌, map, filter,
}
use becertain.Value.{
  ℤ, pos, Value, Fields, null, bool, int, float, str, list, dict, field, end, get_field, or_null,
  Runtime,
}
use becertain.Enums.{Signal}
use becertain.Correlation.{Arithmetic}
use becertain.Store.Documents.{Json}
use becertain.Store.Client.{Redis, Store}
use becertain.Store.Weights.{
  StoredWeights, load_weights, save_weights, delete_weights, not_negative, or_zero, int_of_bool,
}

abbrev pub Weights : Type 0 → Type 0
Weights F = List (Signal × F)

abbrev pub signal_value : Signal → String
signal_value Signal.metrics = "metrics"
signal_value Signal.logs = "logs"
signal_value Signal.traces = "traces"
signal_value Signal.events = "events"

-- `Signal(text)`, where there is one
abbrev pub signal_of : String → Option Signal
signal_of text =
    if str_eq text "metrics"
    then some Signal.metrics
    else if str_eq text "logs"
    then some Signal.logs
    else if str_eq text "traces"
    then some Signal.traces
    else if str_eq text "events"
    then some Signal.events
    else none

abbrev pub same_signal : Signal → Signal → Bool
same_signal a b = str_eq (signal_value a) (signal_value b)

-- `DEFAULT_WEIGHTS`, `REGISTRY_ALPHA` and the interpreter.
pub record Config (F : Type 0) : Type 0 where
  pub fl : Arithmetic F
  pub rt : Runtime F
  pub default_weights : List (String × F)
  pub registry_alpha : F

pub record TenantState (F : Type 0) : Type 0 where
  pub weights : Weights F
  pub update_count : ℕ

module _ {F : Type 0} where
  -- `d.get(signal)` and `d[signal] = x`
  abbrev pub weight_at : Signal → Weights F → Option F
  weight_at signal [] = none
  weight_at signal ((s, x) ∷ ws) = if same_signal s signal then some x else weight_at signal ws

  abbrev pub set_weight : Signal → F → Weights F → Weights F
  set_weight signal x [] = (signal, x) ∷ []
  set_weight signal x ((s, y) ∷ ws) =
      if same_signal s signal then (s, x) ∷ ws else (s, y) ∷ set_weight signal x ws

  abbrev pub or_other : Option F → F → F
  or_other none other = other
  or_other (some x) other = x

  -- `DEFAULT_WEIGHTS.get(...)`
  abbrev pub configured_at : String → List (String × F) → Option F
  configured_at key [] = none
  configured_at key ((k, x) ∷ rest) = if str_eq k key then some x else configured_at key rest

  -- Weights as a dict of names and values: `_serialize_weights`.
  abbrev pub serialize_weights : Weights F → Fields F
  serialize_weights [] = end
  serialize_weights ((s, x) ∷ ws) = field (signal_value s) (float x) (serialize_weights ws)

module _ {F : Type 0} (c : Config F) where
  abbrev pub third : F
  third = or_other (c.fl.div (c.fl.of_nat 1) (c.fl.of_nat 3)) (c.fl.of_nat 1)

  abbrev pub sum_of : F → Weights F → F
  sum_of total [] = total
  sum_of total ((s, x) ∷ ws) = sum_of (c.fl.add total x) ws

  -- `sum(...) or 1.0`, which is not 0, so that the division by it gives a number
  abbrev pub total_of : Weights F → F
  total_of ws =
      let total = sum_of (c.fl.of_nat 0) ws in if c.rt.is_zero total then c.fl.of_nat 1 else total

  abbrev pub divide_all : F → Weights F → Weights F
  divide_all total [] = []
  divide_all total ((s, x) ∷ ws) = (s, or_other (c.fl.div x total) x) ∷ divide_all total ws

  -- `_normalize`
  unfoldable pub normalize_weights : Weights F → Weights F
  normalize_weights ws = divide_all (total_of ws) ws

  -- `math.isfinite(x) and x >= 0.0`
  abbrev pub is_weight : F → Bool
  is_weight x = c.rt.is_finite x && c.fl.le (c.fl.of_nat 0) x

  abbrev pub default_of : Option F → F
  default_of none = third
  default_of (some x) = if is_weight x then x else third

  -- `_default_weights`
  unfoldable pub default_weights_of : Weights F
  default_weights_of = normalize_weights (
      map (λ s. (s, default_of (configured_at (signal_value s) c.default_weights)))
        (Signal.metrics ∷ Signal.logs ∷ Signal.traces ∷ []))

  abbrev pub add_weight : Option Signal → Option F → Weights F → Weights F
  add_weight (some signal) (some x) ws = if is_weight x then set_weight signal x ws else ws
  add_weight signal x ws = ws

  abbrev pub add_weights : Fields F → Weights F → Weights F
  add_weights end ws = ws
  add_weights (field key value rest) ws =
      add_weights rest (add_weight (signal_of key) (c.fl.to_float value) ws)

  -- `_coerce_weights`
  unfoldable pub coerce_weights : Value F → Weights F
  coerce_weights (dict raw) = normalize_weights (add_weights raw default_weights_of)
  coerce_weights _ = default_weights_of

  -- `_coerce_update_count`
  unfoldable pub coerce_update_count : Value F → ℕ
  coerce_update_count (bool b) = not_negative (int_of_bool b)
  coerce_update_count (int n) = not_negative n
  coerce_update_count (float x) = if c.rt.is_finite x then not_negative (c.rt.truncate x) else 0
  coerce_update_count (str s) = not_negative (or_zero (c.rt.int_of_text s))
  coerce_update_count _ = 0

  -- `TenantState(weights=..., update_count=...)`, which coerces the weights
  abbrev pub new_state : Weights F → ℕ → TenantState F
  new_state ws update_count = record {
    weights = coerce_weights (dict (serialize_weights ws));
    update_count = update_count;
  }

  abbrev pub configured_fields : List (String × F) → Fields F
  configured_fields [] = end
  configured_fields ((key, x) ∷ rest) = field key (float x) (configured_fields rest)

  -- `_coerce_weights(DEFAULT_WEIGHTS)`
  abbrev pub initial_weights : Weights F
  initial_weights = coerce_weights (dict (configured_fields c.default_weights))

  abbrev pub weight_of : Signal → Weights F → F
  weight_of signal ws =
      or_other (weight_at signal ws) (or_other (weight_at signal default_weights_of) third)

  -- `TenantState.update_weight`
  unfoldable pub updated_state : Signal → Bool → TenantState F → TenantState F
  updated_state signal was_correct state =
      let reward = if was_correct then c.fl.of_nat 1 else c.fl.of_nat 0 in
      let learned =
        c.fl.add
          (c.fl.mul (c.fl.sub (c.fl.of_nat 1) c.registry_alpha) (weight_of signal state.weights))
          (c.fl.mul c.registry_alpha reward) in
      record {
        weights = normalize_weights (set_weight signal learned state.weights);
        update_count = state.update_count + 1;
      }

  -- `TenantState.weighted_confidence`
  unfoldable pub weighted_confidence : TenantState F → F → F → F → F
  weighted_confidence state metric_score log_score trace_score = c.fl.round 4 (
      c.fl.add
        (c.fl.add (c.fl.mul (weight_of Signal.metrics state.weights) metric_score)
          (c.fl.mul (weight_of Signal.logs state.weights) log_score))
        (c.fl.mul (weight_of Signal.traces state.weights) trace_score))
