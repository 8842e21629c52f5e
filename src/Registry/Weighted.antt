-- ===== src/Registry/Weighted.antt =====
-- The weights of a state of engine/registry.py have the three signals that are weighed.
use becertain.Prelude.{
  Bool, true, false, [], ◌∷◌, Option, none, some, arith, ◌≡◌, refl, ◌∙◌, ℕ, Bool-cases, inl, inr,
}
use becertain.Value.{Value, Fields, null, bool, int, float, str, list, dict, field, end}
use becertain.Enums.{Signal}
use becertain.Registry.{
  Weights, Config, TenantState, signal_of, weight_at, set_weight, divide_all, total_of,
  normalize_weights, default_weights_of, is_weight, add_weight, add_weights, coerce_weights,
  new_state, initial_weights, updated_state, serialize_weights,
}

abbrev pub is_some : {A : Type 0} → Option A → Bool
is_some none = false
is_some (some a) = true

module _ {F : Type 0} where
  -- Whether the dict has the signal.
  abbrev pub weighs : Signal → Weights F → Bool
  weighs signal ws = is_some (weight_at signal ws)

  abbrev pub HasAllSignals : Weights F → Type 0
  HasAllSignals ws =
      (weighs Signal.metrics ws ≡ true)
      × (weighs Signal.logs ws ≡ true)
      × (weighs Signal.traces ws ≡ true)

  weighs-set_weight :
      (signal k : Signal) (x : F) (ws : Weights F)
      → weighs signal ws ≡ true
      → weighs signal (set_weight k x ws) ≡ true
  weighs-set_weight signal k x [] h = ground arith
  weighs-set_weight signal k x ((s, y) ∷ ws) h = ground (arith, weighs-set_weight signal k x ws)

  HasAllSignals-set_weight :
      (k : Signal) (x : F) (ws : Weights F) → HasAllSignals ws → HasAllSignals (set_weight k x ws)
  HasAllSignals-set_weight k x ws (m, l, t) = (
    weighs-set_weight Signal.metrics k x ws m,
    weighs-set_weight Signal.logs k x ws l,
    weighs-set_weight Signal.traces k x ws t,
  )

module _ {F : Type 0} (c : Config F) where
  weighs-divide_all :
      (signal : Signal) (total : F) (ws : Weights F)
      → weighs signal (divide_all c total ws) ≡ weighs signal ws
  weighs-divide_all signal total [] = refl
  weighs-divide_all signal total ((s, x) ∷ ws) = ground (arith, weighs-divide_all signal total ws)

  HasAllSignals-normalize_weights :
      (ws : Weights F) → HasAllSignals ws → HasAllSignals (normalize_weights c ws)
  unfolding normalize_weights
  HasAllSignals-normalize_weights ws (m, l, t) = (
    weighs-divide_all Signal.metrics (total_of c ws) ws ∙ m,
    weighs-divide_all Signal.logs (total_of c ws) ws ∙ l,
    weighs-divide_all Signal.traces (total_of c ws) ws ∙ t,
  )

  default_weights_of-HasAllSignals : HasAllSignals (default_weights_of c)
  unfolding default_weights_of
  default_weights_of-HasAllSignals = HasAllSignals-normalize_weights _ (refl, refl, refl)

  HasAllSignals-add_weight :
      (signal : Option Signal) (x : Option F) (ws : Weights F)
      → HasAllSignals ws
      → HasAllSignals (add_weight c signal x ws)
  HasAllSignals-add_weight none x ws h = h
  HasAllSignals-add_weight (some signal) none ws h = h
  HasAllSignals-add_weight (some signal) (some x) ws h = elim (Bool-cases (is_weight c x)) [
    | inl accepted ↦ rw accepted (HasAllSignals-set_weight signal x ws h)
    | inr rejected ↦ rw rejected h
  ]

  HasAllSignals-add_weights :
      (raw : Fields F) (ws : Weights F) → HasAllSignals ws → HasAllSignals (add_weights c raw ws)
  HasAllSignals-add_weights end ws h = h
  HasAllSignals-add_weights (field key value rest) ws h =
      HasAllSignals-add_weights rest _
        (HasAllSignals-add_weight (signal_of key) (c.fl.to_float value) ws h)

  coerce_weights-HasAllSignals : (raw : Value F) → HasAllSignals (coerce_weights c raw)
  unfolding coerce_weights
  coerce_weights-HasAllSignals null = default_weights_of-HasAllSignals
  coerce_weights-HasAllSignals (bool b) = default_weights_of-HasAllSignals
  coerce_weights-HasAllSignals (int n) = default_weights_of-HasAllSignals
  coerce_weights-HasAllSignals (float x) = default_weights_of-HasAllSignals
  coerce_weights-HasAllSignals (str s) = default_weights_of-HasAllSignals
  coerce_weights-HasAllSignals (list vs) = default_weights_of-HasAllSignals
  coerce_weights-HasAllSignals (dict raw) =
      HasAllSignals-normalize_weights _
        (HasAllSignals-add_weights raw _ default_weights_of-HasAllSignals)

  pub initial_weights-HasAllSignals : HasAllSignals (initial_weights c)
  initial_weights-HasAllSignals = coerce_weights-HasAllSignals _

  pub new_state-HasAllSignals : (ws : Weights F) (n : ℕ) → HasAllSignals (new_state c ws n).weights
  new_state-HasAllSignals ws n = coerce_weights-HasAllSignals (dict (serialize_weights ws))

  pub updated_state-HasAllSignals :
      (signal : Signal) (was_correct : Bool) (state : TenantState F)
      → HasAllSignals state.weights
      → HasAllSignals (updated_state c signal was_correct state).weights
  unfolding updated_state
  updated_state-HasAllSignals signal was_correct state h =
      HasAllSignals-normalize_weights _ (HasAllSignals-set_weight signal _ state.weights h)
