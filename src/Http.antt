-- ===== src/Http.antt =====
-- `HTTPException` as a value: a handler replies with its result, or raises a status with a detail, or
-- another exception, which is no reply.
use becertain.Prelude.{ℕ, String, Bool, true, false, Option, none, some}

pub record HttpError : Type 0 where
  pub status_code : ℕ
  pub detail : String

abbrev pub http_error : ℕ → String → HttpError
http_error status_code detail = record { status_code = status_code; detail = detail }

pub data Reply (A : Type 0) : Type 0 where
  ok : A → Reply A
  raised : HttpError → Reply A
  crashed : Reply A

-- `if c: raise HTTPException(...)`
abbrev pub raise_if : Bool → ℕ → String → Reply Unit
raise_if false _ _ = ok tt
raise_if true status_code detail = raised (http_error status_code detail)

module _ {A : Type 0} where
  -- `if x is None: raise HTTPException(...)`
  abbrev pub or_raise : Option A → ℕ → String → Reply A
  or_raise (some x) _ _ = ok x
  or_raise none status_code detail = raised (http_error status_code detail)

  -- What follows a handler runs only if it did not raise.
  infixl 5 ◌>>=◌
  abbrev pub ◌>>=◌ : {B : Type 0} → Reply A → (A → Reply B) → Reply B
  ◌>>=◌ reply rest = elim reply [ raised error ↦ raised error | crashed ↦ crashed | ok x ↦ rest x ]

infixl 5 ◌>>◌
abbrev pub ◌>>◌ : {B : Type 0} → Reply Unit → Reply B → Reply B
check >> rest = check >>= λ _. rest
