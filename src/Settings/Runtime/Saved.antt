-- ===== src/Settings/Runtime/Saved.antt =====
-- Which attributes `apply_runtime_overrides` saves and restores.
use becertain.Prelude.{
  ℕ, ◌≡◌, refl, ◌∙◌, ap, String, Bool, true, false, List, [], ◌∷◌, ◌++◌, Option, none, some, str_eq,
  inl, inr, Bool-cases, arith, if◌then◌else◌, ◌==◌, ◌&&◌, ◌||◌, any,
}
use becertain.Store.Documents.{bind-some, of_some}
use becertain.Settings.Runtime.Heap.{or_saved, get-set_attr, get-append, not_first, later_none}
use becertain.Settings.Runtime.Applied.{replaced, override_attr-seen, same_attr}
use becertain.Settings.Runtime.{
  Module, Cell, Process, cell, get_attr, set_attr, override_attr, override_module, override_modules,
  original_setting_values, restore, runtime_modules,
}

abbrev pub is_some : {A : Type 0} → Option A → Bool
is_some none = false
is_some (some a) = true

abbrev pub has_key : {A : Type 0} → String → List (String × A) → Bool
has_key name d = any (λ e. str_eq e.0 name) d

module _ {V : Type 0} where
  -- The attribute is an overridden setting, or an overridden constant that a module of the service
  -- has.
  abbrev pub is_overridden :
      ℕ → List (String × V) → List (String × V) → Process V → ℕ → String → Bool
  is_overridden settings so co p o n =
      ((settings == o) && has_key n so)
      || (any (λ m. m.object == o) (runtime_modules p.sys_modules)
          && has_key n co
          && is_some (get_attr o n p.heap))

  -- The settings that are saved are those that are overridden.
  pub original_setting_values-saved :
      (settings : ℕ) (so : List (String × V)) (heap os : List (Cell V)) (o : ℕ) (n : String)
      → original_setting_values settings so heap ≡ some os
      → is_some (get_attr o n os) ≡ ((settings == o) && has_key n so)
  unfolding original_setting_values get_attr
  original_setting_values-saved settings [] heap os o n e =
      of_some (λ cs. is_some (get_attr o n cs) ≡ ((settings == o) && false)) e (ground arith)
  original_setting_values-saved settings ((key, v) ∷ rest) heap os o n e =
      let (value, found, e1) = bind-some (get_attr settings key heap) _ os e in
      let (values, saved, e2) = bind-some (original_setting_values settings rest heap) _ os e1 in
      of_some (λ cs. is_some (get_attr o n cs) ≡ ((settings == o) && has_key n ((key, v) ∷ rest)))
        e2 (ground (arith, original_setting_values-saved settings rest heap values o n saved))

  -- An attribute that is not saved is not restored.
  pub get-restore-none :
      (o : ℕ) (n : String) (cs heap : List (Cell V))
      → get_attr o n cs ≡ none
      → get_attr o n (restore cs heap) ≡ get_attr o n heap
  unfolding restore
  get-restore-none o n [] heap h = refl
  get-restore-none o n (c ∷ cs) heap h =
      get-restore-none o n cs (set_attr c.object c.name c.value heap) (later_none o n c cs h)
      ∙ get-set_attr o c.object n c.name c.value heap
      ∙ ap (λ b. if b then some c.value else get_attr o n heap) (not_first o n c cs h)

  is_some-replaced : (new old : Option V) → is_some (replaced new old) ≡ is_some old
  is_some-replaced new none = refl
  is_some-replaced none (some old) = refl
  is_some-replaced (some new) (some old) = refl

  override_attr-there :
      (q : ℕ) (name : String) (v : V) (s : List (Cell V) × List (Cell V)) (o : ℕ) (n : String)
      → is_some (get_attr o n (override_attr q name v s).0) ≡ is_some (get_attr o n s.0)
  override_attr-there q name v s o n =
      ground (
        arith,
        override_attr-seen q name v s.0 s.1 o n,
        is_some-replaced (some v) (get_attr o n s.0),
      )

  is_some-or_saved : (a b : Option V) → is_some (or_saved a b) ≡ (is_some a || is_some b)
  is_some-or_saved none b = refl
  is_some-or_saved (some a) b = refl

  override_attr-saved :
      (q : ℕ) (name : String) (v : V) (heap originals : List (Cell V)) (o : ℕ) (n : String)
      → is_some (get_attr o n (override_attr q name v (heap, originals)).1) ≡ (
          is_some (get_attr o n originals)
          || (((q == o) && str_eq name n) && is_some (get_attr o n heap)))
  unfolding override_attr get_attr
  override_attr-saved q name v heap originals o n = saved (get_attr q name heap) refl
    where
      saved :
          (found : Option V)
          → get_attr q name heap ≡ found
          → (let after : List (Cell V) × List (Cell V) = elim found [
            | none ↦ (heap, originals)
            | some original ↦ (set_attr q name v heap, originals ++ (cell q name original ∷ []))
          ] in
              is_some (get_attr o n after.1))
            ≡ (is_some (get_attr o n originals)
                || (((q == o) && str_eq name n) && is_some (get_attr o n heap)))
      saved none e = elim (Bool-cases ((q == o) && str_eq name n)) [
        | inl here ↦ rw (here, same_attr q o name n heap here, e) (ground arith)
        | inr elsewhere ↦ rw elsewhere (ground arith)
      ]
      saved (some original) e =
          ap is_some (get-append o n originals (cell q name original ∷ []))
          ∙ is_some-or_saved (get_attr o n originals) (get_attr o n (cell q name original ∷ []))
          ∙ elim (Bool-cases ((q == o) && str_eq name n)) [
            | inl here ↦ rw (here, same_attr q o name n heap here, e) refl
            | inr elsewhere ↦ rw elsewhere refl
          ]

  override_module-saved :
      (q : ℕ) (co : List (String × V)) (s : List (Cell V) × List (Cell V)) (o : ℕ) (n : String)
      → is_some (get_attr o n (override_module q co s).1)
        ≡ (is_some (get_attr o n s.1) || ((q == o) && has_key n co && is_some (get_attr o n s.0)))
  unfolding override_module
  override_module-saved q [] s o n = ground arith
  override_module-saved q ((name, v) ∷ rest) s o n = ground (
    arith,
    override_module-saved q rest (override_attr q name v s) o n,
    override_attr-saved q name v s.0 s.1 o n,
    override_attr-there q name v s o n,
  )

  override_module-there :
      (q : ℕ) (co : List (String × V)) (s : List (Cell V) × List (Cell V)) (o : ℕ) (n : String)
      → is_some (get_attr o n (override_module q co s).0) ≡ is_some (get_attr o n s.0)
  unfolding override_module
  override_module-there q [] s o n = refl
  override_module-there q ((name, v) ∷ rest) s o n =
      override_module-there q rest (override_attr q name v s) o n
      ∙ override_attr-there q name v s o n

  -- The constants that are saved are those of a module that has them.
  pub override_modules-saved :
      (modules : List Module) (co : List (String × V)) (s : List (Cell V) × List (Cell V)) (o : ℕ)
      (n : String)
      → is_some (get_attr o n (override_modules modules co s).1) ≡ (
          is_some (get_attr o n s.1)
          || (any (λ m. m.object == o) modules && has_key n co && is_some (get_attr o n s.0)))
  unfolding override_modules
  override_modules-saved [] co s o n = ground arith
  override_modules-saved (m ∷ modules) co s o n = ground (
    arith,
    override_modules-saved modules co (override_module m.object co s) o n,
    override_module-saved m.object co s o n,
    override_module-there m.object co s o n,
  )
