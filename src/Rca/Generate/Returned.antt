-- ===== src/Rca/Generate/Returned.antt =====
-- `generate` returns, and what it returns.
use becertain.Prelude.{ℕ, ◌+◌, ◌≡◌, ◌≢◌, Option, none, some}
use becertain.Rca.Hypothesis.{Incident}

-- No exception: a value.
abbrev pub Returns : {A : Type 0} → Option A → Type 0
Returns {A} m = (x : A) × (m ≡ some x)

module _ {F : Type 0} (i : Incident F) where
  -- The numbers that are divided by are not 0: the window of the deployments, log1p of the scales of
  -- the three signals, which are at least 1, and 8.
  pub record HasNoZeroDivision : Type 0 where
    pub window : (x : F) → i.py.fl.div x i.settings.rca_deploy_window_seconds ≢ none
    pub scale : (n : ℕ) (x : F) → i.py.fl.div x (i.py.log1p (i.py.fl.of_nat (n + 1))) ≢ none
    pub eight : (x : F) → i.py.fl.div x (i.py.fl.of_nat 8) ≢ none
