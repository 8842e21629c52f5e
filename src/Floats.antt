-- ===== src/Floats.antt =====
-- Python's floats: the operations that the code uses, as parameters. A law of the arithmetic of
-- floats that a theorem needs is a hypothesis of that theorem.
pub mod Sample
use becertain.Prelude.{Bool}

pub record Floats (F : Type 0) : Type 0 where
  pub lt : F → F → Bool
  pub le : F → F → Bool
  pub sub : F → F → F
  pub abs : F → F
