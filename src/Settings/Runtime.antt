-- ===== src/Settings/Runtime.antt =====
-- `_runtime_modules` and `apply_runtime_overrides`: the attributes of the object `settings` and of
-- the loaded modules are cells of one heap, so that two names of a module in `sys.modules` may be one
-- object. The body of the `async with` is any change of the process, with its result or exception.
pub mod Heap
pub mod Restored
pub mod Applied
pub mod Saved
use text.Mathlib.Text.{starts_with}
use becertain.Prelude.{
  ℕ, String, Bool, true, false, List, [], ◌∷◌, ◌++◌, Option, none, some, str_eq, ◌&&◌, ◌||◌, ◌==◌,
  any, if◌then◌else◌, filter,
}
use becertain.Store.Documents.{◌>>=◌}
use becertain.Settings.{Exception, attribute_error}

pub record Module : Type 0 where
  pub name : String
  pub object : ℕ

-- An attribute of an object, with its value.
pub record Cell (V : Type 0) : Type 0 where
  pub object : ℕ
  pub name : String
  pub value : V

pub record Process (V : Type 0) : Type 0 where
  pub heap : List (Cell V)
  pub sys_modules : List Module

-- How the body ends: it returns, raises, or is cancelled; or it was never entered.
pub data Ending (R : Type 0) : Type 0 where
  returned : R → Ending R
  raised : Exception → Ending R
  cancelled : Ending R

abbrev pub module_prefixes : List String
module_prefixes = "api." ∷ "engine." ∷ "services." ∷ "store." ∷ "main" ∷ "config" ∷ []

-- `_runtime_modules`
unfoldable pub runtime_modules : List Module → List Module
runtime_modules modules =
    filter (λ m. str_eq m.name "config" || any (λ start. starts_with m.name start) module_prefixes)
      modules

module _ {V : Type 0} where
  abbrev pub cell : ℕ → String → V → Cell V
  cell object name value = record { object = object; name = name; value = value }

  abbrev pub is_at : ℕ → String → Cell V → Bool
  is_at object name c = (c.object == object) && str_eq c.name name

  -- `getattr(object, name)`; `none` where `hasattr` says no
  unfoldable pub get_attr : ℕ → String → List (Cell V) → Option V
  get_attr object name [] = none
  get_attr object name (c ∷ heap) =
      if is_at object name c then some c.value else get_attr object name heap

  -- `setattr(object, name, value)`
  unfoldable pub set_attr : ℕ → String → V → List (Cell V) → List (Cell V)
  set_attr object name value [] = cell object name value ∷ []
  set_attr object name value (c ∷ heap) =
      if is_at object name c
      then cell object name value ∷ heap
      else c ∷ set_attr object name value heap

  -- `{key: getattr(settings, key) for key in settings_overrides}`; `none` is an `AttributeError`
  unfoldable pub original_setting_values :
      ℕ → List (String × V) → List (Cell V) → Option (List (Cell V))
  original_setting_values settings [] heap = some []
  original_setting_values settings ((key, _) ∷ rest) heap = do
    value ← get_attr settings key heap
    values ← original_setting_values settings rest heap
    some (cell settings key value ∷ values)

  unfoldable pub set_all : ℕ → List (String × V) → List (Cell V) → List (Cell V)
  set_all settings [] heap = heap
  set_all settings ((key, value) ∷ rest) heap =
      set_all settings rest (set_attr settings key value heap)

  -- `if hasattr(module, name): ...`, with the list `original_constants`
  unfoldable pub override_attr :
      ℕ → String → V → List (Cell V) × List (Cell V) → List (Cell V) × List (Cell V)
  override_attr object name value (heap, originals) = elim (get_attr object name heap) [
    | none ↦ (heap, originals)
    | some original ↦
        (set_attr object name value heap, originals ++ (cell object name original ∷ []))
  ]

  -- The inner loop over `constant_overrides`.
  unfoldable pub override_module :
      ℕ → List (String × V) → List (Cell V) × List (Cell V) → List (Cell V) × List (Cell V)
  override_module object [] s = s
  override_module object ((name, value) ∷ rest) s =
      override_module object rest (override_attr object name value s)

  unfoldable pub override_modules :
      List Module
      → List (String × V)
      → List (Cell V) × List (Cell V)
      → List (Cell V) × List (Cell V)
  override_modules [] constants s = s
  override_modules (m ∷ modules) constants s =
      override_modules modules constants (override_module m.object constants s)

  -- `for module, name, value in ...: setattr(module, name, value)`
  unfoldable pub restore : List (Cell V) → List (Cell V) → List (Cell V)
  restore [] heap = heap
  restore (c ∷ cells) heap = restore cells (set_attr c.object c.name c.value heap)

  -- `reversed(...)`
  unfoldable pub reversed : List (Cell V) → List (Cell V)
  reversed [] = []
  reversed (c ∷ cells) = reversed cells ++ (c ∷ [])

  -- The process inside the `async with`, with `original_constants`.
  unfoldable pub overridden :
      ℕ → List (String × V) → List (String × V) → Process V → Process V × List (Cell V)
  overridden settings settings_overrides constant_overrides p =
      let (heap, originals) =
        override_modules (runtime_modules p.sys_modules) constant_overrides
          (set_all settings settings_overrides p.heap, []) in
      (record p { heap = heap }, originals)

  module _ {R : Type 0} (settings : ℕ) (body : Process V → Process V × Ending R) where
    -- The `try` with its `finally`.
    unfoldable pub with_overrides :
        List (String × V) → List (String × V) → List (Cell V) → Process V → Process V × Ending R
    with_overrides settings_overrides constant_overrides original_settings p =
        let (inside, originals) = overridden settings settings_overrides constant_overrides p in
        let (after, ending) = body inside in
        (
          record after {
            heap = restore original_settings (restore (reversed originals) after.heap);
          },
          ending,
        )

    -- Under the lock, with `original_setting_values`, or with the error of reading them.
    unfoldable pub within_lock :
        List (String × V)
        → List (String × V)
        → Option (List (Cell V))
        → Process V
        → Process V × Ending R
    within_lock settings_overrides constant_overrides none p = (p, raised attribute_error)
    within_lock settings_overrides constant_overrides (some original_settings) p =
        with_overrides settings_overrides constant_overrides original_settings p

    unfoldable pub apply_runtime_overrides :
        List (String × V) → List (String × V) → Process V → Process V × Ending R
    apply_runtime_overrides [] [] p = body p
    apply_runtime_overrides settings_overrides constant_overrides p =
        within_lock settings_overrides constant_overrides
          (original_setting_values settings settings_overrides p.heap) p
