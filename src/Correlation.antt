-- ===== src/Correlation.antt =====
-- engine/correlation/temporal.py and engine/correlation/signals.py: the signals that are correlated,
-- and what the two modules share. An object that is passed where a response model is expected may
-- lack an attribute, so an attribute that is read by `getattr` is an `Option`.
pub mod Services
pub mod Temporal
pub mod Links
pub mod Sample
mod Tests
use becertain.Prelude.{ℕ, String, Bool, Option, none, some, if◌then◌else◌, ◌&&◌}
use becertain.Enums.{Severity}
use becertain.Value.{Value, null, bool, int, float, str, list, dict}

-- Python's floats. `to_float` gives `none` for a `TypeError` or a `ValueError`; an `int` is in the range of
-- floats. `div` gives `none` for a `ZeroDivisionError`.
pub record Arithmetic (F : Type 0) : Type 0 where
  pub lt : F → F → Bool
  pub le : F → F → Bool
  pub eq : F → F → Bool
  pub add : F → F → F
  pub sub : F → F → F
  pub mul : F → F → F
  pub div : F → F → Option F
  pub of_nat : ℕ → F
  pub round : ℕ → F → F
  pub is_nan : F → Bool
  pub to_float : Value F → Option F

pub record MetricAnomaly (F : Type 0) : Type 0 where
  pub metric_name : String
  pub timestamp : F
  pub severity : Severity

pub record LogBurst (F : Type 0) : Type 0 where
  pub start : Option (Value F)
  pub end : Option (Value F)
  pub window_start : Option (Value F)
  pub window_end : Option (Value F)
  pub stream : Option (Value F)

pub record ServiceLatency (F : Type 0) : Type 0 where
  pub service : String
  pub window_start : Option F
  pub window_end : Option F

module _ {F : Type 0} (fl : Arithmetic F) where
  -- `min(a, b)`
  abbrev pub min_of : F → F → F
  min_of a b = if fl.lt b a then b else a

  -- `None if math.isnan(number) else number`
  abbrev pub unless_nan : F → Option F
  unless_nan x = if fl.is_nan x then none else some x

  abbrev pub number_of : Option F → Option F
  number_of none = none
  number_of (some x) = unless_nan x

  -- `_safe_float`
  unfoldable pub safe_float : Value F → Option F
  safe_float null = none
  safe_float (list vs) = none
  safe_float (dict fields) = none
  safe_float v = number_of (fl.to_float v)

  -- `_overlap`
  unfoldable pub overlap : F → F → F → F → Bool
  overlap a_start a_end b_start b_end = fl.le a_start b_end && fl.le b_start a_end

  -- `_latency_window`: the ends in order
  abbrev pub in_order : Option F → Option F → Option F × Option F
  in_order (some start) (some end) =
      if fl.lt end start then (some end, some start) else (some start, some end)
  in_order start end = (start, end)

  unfoldable pub latency_window : ServiceLatency F → Option F × Option F
  latency_window latency = in_order (number_of latency.window_start) (number_of latency.window_end)

-- `getattr(v, "a", default)`
abbrev pub attr_or : {F : Type 0} → Option (Value F) → Value F → Value F
attr_or none default_value = default_value
attr_or (some v) default_value = v
