-- ===== src/Floats/Sample.antt =====
-- Whole numbers in the place of floats, for the samples of the other modules.
use becertain.Prelude.{ℕ, ◌+◌, ◌-◌, ltb, leb}
use becertain.Floats.{Floats}

-- `abs` only ever meets a difference here, which `sub` gives without its sign.
abbrev pub whole : Floats ℕ
whole = record { lt = ltb; le = leb; sub = λ a b. (a - b) + (b - a); abs = λ a. a }
