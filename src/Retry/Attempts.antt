-- ===== src/Retry/Attempts.antt =====
-- What the decorated function does: failed calls with growing delays, and one call that is final.
use becertain.Prelude.{
  ℕ, zero, suc, ◌+◌, ◌≤◌, ◌<◌, Bool, true, false, Option, some, leb, max, ◌≡◌, refl, arith, ◌∙◌,
  ◌⊎◌, inl, inr, Bool-cases,
}
use becertain.Retry.{Outcome, Retry, turn, retry_loop, wrapper}
use becertain.Retry.Outcome.{returned, failed, threw}

module _ {F W A E : Type 0} (retry : Retry F W) (func : W → Outcome A E × W) where
  -- So many calls that fail with an exception to retry on, with a sleep after each.
  pub data Fails : ℕ → F → W → W → Type 0 where
    none_yet : (delay : F) (w : W) → Fails 0 delay w w
    again :
        (n : ℕ) (delay : F) (w w' : W) (e : E)
        → (func w).0 ≡ failed e
        → Fails n (retry.mul delay retry.backoff) (retry.sleep delay (func w).1) w'
        → Fails (n + 1) delay w w'

  abbrev pub is_failed : Outcome A E → Bool
  is_failed (failed e) = true
  is_failed _ = false

  Outcome-cases : (o : Outcome A E) → (is_failed o ≡ false) ⊎ ((e : E) × (o ≡ failed e))
  Outcome-cases (returned a) = inl refl
  Outcome-cases (threw e) = inl refl
  Outcome-cases (failed e) = inr (e, refl)

  turn_final :
      (last : Bool) (later : W → Option (Outcome A E × W)) (o : Outcome A E × W)
      → is_failed o.0 ≡ false
      → turn retry func last later o ≡ some o
  turn_final last later (returned a, w) h = refl
  turn_final last later (threw e, w) h = refl
  turn_final last later (failed e, w) h = absurd (ground arith)

  turn_last :
      (later : W → Option (Outcome A E × W)) (o : Outcome A E × W)
      → turn retry func true later o ≡ some o
  turn_last later (returned a, w) = refl
  turn_last later (threw e, w) = refl
  turn_last later (failed e, w) = refl

  turn_again :
      (later : W → Option (Outcome A E × W)) (o : Outcome A E × W) (e : E)
      → o.0 ≡ failed e
      → turn retry func false later o ≡ later o.1
  turn_again later (returned a, w) e h = absurd (ground arith)
  turn_again later (threw e', w) e h = absurd (ground arith)
  turn_again later (failed e', w) e h = refl

  retry_loop_lem :
      (fuel attempt : ℕ) (delay : F) (w : W)
      → attempt + fuel ≡ max 1 retry.attempts
      → attempt < max 1 retry.attempts
      → (n : ℕ) × (w' : W) × Fails n delay w w'
        × (retry_loop retry func fuel attempt delay w ≡ some (func w'))
        × (attempt + n + 1 ≤ max 1 retry.attempts)
        × ((is_failed (func w').0 ≡ false) ⊎ (attempt + n + 1 ≡ max 1 retry.attempts))
  unfolding retry_loop
  retry_loop_lem zero attempt delay w enough early = absurd (omega arith)
  retry_loop_lem (suc fuel) attempt delay w enough early =
      let later : W → Option (Outcome A E × W) = λ w'.
        retry_loop retry func fuel (attempt + 1) (retry.mul delay retry.backoff)
          (retry.sleep delay w') in
      elim (Outcome-cases (func w).0) [
        | inl final ↦ (
          0,
          w,
          Fails.none_yet delay w,
          turn_final (leb retry.attempts (attempt + 1)) later (func w) final,
          omega arith,
          inl final,
        )
        | inr (e, fails) ↦ elim (Bool-cases (leb retry.attempts (attempt + 1))) [
          | inl last ↦ (
            0,
            w,
            Fails.none_yet delay w,
            rw last (turn_last later (func w)),
            omega arith,
            inr (ground arith),
          )
          | inr more ↦
              let (n, w', before, eq, le, done) =
                retry_loop_lem fuel (attempt + 1) (retry.mul delay retry.backoff)
                  (retry.sleep delay (func w).1) (omega arith) (ground arith) in
              (
                n + 1,
                w',
                Fails.again n delay w w' e fails before,
                rw more (turn_again later (func w) e fails ∙ eq),
                omega arith,
                elim done [ inl f ↦ inl f | inr all ↦ inr (omega (arith, all)) ],
              )
        ]
      ]

-- The decorated call ends, whatever the function does: after some calls that failed with an
-- exception to retry on, each followed by a sleep of the delay grown so far, one call is final and
-- its outcome is passed on. At most `attempts` calls are made, and at least one; and the outcome is
-- such a failure only if all the attempts are used up.
pub wrapper_lem :
    {F W A E : Type 0} (retry : Retry F W) (func : W → Outcome A E × W) (w : W)
    → (n : ℕ) × (w' : W) × Fails retry func n retry.delay w w'
      × (wrapper retry func w ≡ some (func w'))
      × (n + 1 ≤ max 1 retry.attempts)
      × ((is_failed retry func (func w').0 ≡ false) ⊎ (n + 1 ≡ max 1 retry.attempts))
unfolding wrapper
wrapper_lem retry func w =
    let (n, w', before, eq, le, done) =
      retry_loop_lem retry func (max 1 retry.attempts) 0 retry.delay w (omega arith)
        (omega arith) in
    (
      n,
      w',
      before,
      eq,
      omega (arith, le),
      elim done [ inl f ↦ inl f | inr all ↦ inr (omega (arith, all)) ],
    )
