-- ===== src/Retry.antt =====
-- datasources/retry.py: the loop of the decorator, which is the same in its two wrappers. The
-- decorated function and the sleep act on a world `W`; a delay is a float.
pub mod Attempts
mod Tests
use becertain.Prelude.{
  ℕ, zero, suc, ◌+◌, Bool, true, false, Option, none, some, if◌then◌else◌, leb, max,
}

-- A call returns, or raises one of the exceptions to retry on, or another one.
pub data Outcome (A E : Type 0) : Type 0 where
  returned : A → Outcome A E
  failed : E → Outcome A E
  threw : E → Outcome A E

pub record Retry (F W : Type 0) : Type 0 where
  pub attempts : ℕ
  pub delay : F
  pub backoff : F
  pub mul : F → F → F
  pub sleep : F → W → W

module _ {F W A E : Type 0} (retry : Retry F W) (func : W → Outcome A E × W) where
  -- The turn after a call, by whether it was the last attempt.
  abbrev pub turn :
      Bool → (W → Option (Outcome A E × W)) → Outcome A E × W → Option (Outcome A E × W)
  turn last later (returned a, w) = some (returned a, w)
  turn last later (threw e, w) = some (threw e, w)
  turn last later (failed e, w) = if last then some (failed e, w) else later w

  unfoldable pub retry_loop : ℕ → ℕ → F → W → Option (Outcome A E × W)
  retry_loop zero attempt delay w = none
  retry_loop (suc fuel) attempt delay w =
      turn (leb retry.attempts (attempt + 1))
        (λ w'. retry_loop fuel (attempt + 1) (retry.mul delay retry.backoff) (retry.sleep delay w'))
        (func w)

  -- One unit of fuel for each attempt, and for one attempt at least: the test comes after the call.
  unfoldable pub wrapper : W → Option (Outcome A E × W)
  wrapper w = retry_loop (max 1 retry.attempts) 0 retry.delay w
