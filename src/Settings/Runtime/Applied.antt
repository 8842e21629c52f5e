-- ===== src/Settings/Runtime/Applied.antt =====
-- What the body of `apply_runtime_overrides` finds.
use becertain.Prelude.{
  ℕ, ◌≡◌, refl, sym, ◌∙◌, ap, String, Bool, true, false, List, [], ◌∷◌, ◌++◌, Option, none, some,
  str_eq, eq_iff, inl, inr, Bool-cases, arith, if◌then◌else◌, ◌==◌, ◌&&◌, any,
}
use becertain.Settings.Runtime.Heap.{or_saved, get-set_attr}
use becertain.Settings.Runtime.{
  Module, Cell, Process, cell, get_attr, set_attr, set_all, override_attr, override_module,
  override_modules, overridden, runtime_modules,
}

module _ {V : Type 0} where
  -- The override of a name, if there is one: the keys of a dict are unique.
  abbrev pub override_of : String → List (String × V) → Option V
  override_of name [] = none
  override_of name ((key, value) ∷ rest) =
      or_saved (override_of name rest) (if str_eq key name then some value else none)

  -- An override reaches an attribute that is there, and adds none.
  abbrev pub replaced : Option V → Option V → Option V
  replaced _ none = none
  replaced none (some old) = some old
  replaced (some new) (some old) = some new

  set_all-seen :
      (settings : ℕ) (so : List (String × V)) (heap : List (Cell V)) (o : ℕ) (n : String)
      → get_attr o n (set_all settings so heap) ≡ (
          if settings == o
          then or_saved (override_of n so) (get_attr o n heap)
          else get_attr o n heap)
  unfolding set_all
  set_all-seen settings [] heap o n = ground arith
  set_all-seen settings ((key, v) ∷ rest) heap o n = ground (
    arith,
    set_all-seen settings rest (set_attr settings key v heap) o n,
    get-set_attr o settings n key v heap,
  )

  absent_override : (b : Bool) (x : Option V) → x ≡ (if b then replaced none x else x)
  absent_override true none = refl
  absent_override true (some v) = refl
  absent_override false x = refl

  pub same_attr :
      (q o : ℕ) (name n : String) (heap : List (Cell V))
      → ((q == o) && str_eq name n) ≡ true
      → get_attr o n heap ≡ get_attr q name heap
  same_attr q o name n heap here =
      let e1 : q ≡ o = ground arith in
      let e2 : name ≡ n = ground (arith, eq_iff name n) in
      ap (λ k. get_attr k n heap) (sym e1) ∙ ap (λ k. get_attr q k heap) (sym e2)

  pub override_attr-seen :
      (q : ℕ) (name : String) (v : V) (heap originals : List (Cell V)) (o : ℕ) (n : String)
      → get_attr o n (override_attr q name v (heap, originals)).0 ≡ (
          if (q == o) && str_eq name n
          then replaced (some v) (get_attr o n heap)
          else get_attr o n heap)
  unfolding override_attr
  override_attr-seen q name v heap originals o n = seen (get_attr q name heap) refl
    where
      seen :
          (found : Option V)
          → get_attr q name heap ≡ found
          → (let after : List (Cell V) × List (Cell V) = elim found [
            | none ↦ (heap, originals)
            | some original ↦ (set_attr q name v heap, originals ++ (cell q name original ∷ []))
          ] in
              get_attr o n after.0)
            ≡ (if (q == o) && str_eq name n
                then replaced (some v) (get_attr o n heap)
                else get_attr o n heap)
      seen none e = elim (Bool-cases ((q == o) && str_eq name n)) [
        | inl here ↦ rw (here, same_attr q o name n heap here, e) refl
        | inr elsewhere ↦ rw elsewhere refl
      ]
      seen (some original) e = elim (Bool-cases ((q == o) && str_eq name n)) [
        | inl here ↦
            get-set_attr o q n name v heap ∙ rw (here, same_attr q o name n heap here, e) refl
        | inr elsewhere ↦ get-set_attr o q n name v heap ∙ rw elsewhere refl
      ]

  override_module-seen :
      (q : ℕ) (co : List (String × V)) (s : List (Cell V) × List (Cell V)) (o : ℕ) (n : String)
      → get_attr o n (override_module q co s).0
        ≡ (if q == o then replaced (override_of n co) (get_attr o n s.0) else get_attr o n s.0)
  unfolding override_module
  override_module-seen q [] s o n = absent_override (q == o) (get_attr o n s.0)
  override_module-seen q ((name, v) ∷ rest) s o n = ground (
    arith,
    override_module-seen q rest (override_attr q name v s) o n,
    override_attr-seen q name v s.0 s.1 o n,
  )

  override_modules-seen :
      (modules : List Module) (co : List (String × V)) (s : List (Cell V) × List (Cell V)) (o : ℕ)
      (n : String)
      → get_attr o n (override_modules modules co s).0 ≡ (
          if any (λ m. m.object == o) modules
          then replaced (override_of n co) (get_attr o n s.0)
          else get_attr o n s.0)
  unfolding override_modules
  override_modules-seen [] co s o n = refl
  override_modules-seen (m ∷ modules) co s o n = ground (
    arith,
    override_modules-seen modules co (override_module m.object co s) o n,
    override_module-seen m.object co s o n,
  )

  -- Inside `apply_runtime_overrides`, an attribute of the object `settings` has the value of its
  -- override, if it has one; an attribute of a module of the service that is there has the value of
  -- its override, if it has one; and every other attribute is as it was, an absent one absent.
  pub overridden_seen :
      (settings : ℕ) (so co : List (String × V)) (p : Process V) (o : ℕ) (n : String)
      → get_attr o n (overridden settings so co p).0.heap ≡ (
          let own =
            if settings == o
            then or_saved (override_of n so) (get_attr o n p.heap)
            else get_attr o n p.heap in
          if any (λ m. m.object == o) (runtime_modules p.sys_modules)
          then replaced (override_of n co) own
          else own)
  unfolding overridden
  overridden_seen settings so co p o n =
      override_modules-seen (runtime_modules p.sys_modules) co (set_all settings so p.heap, []) o n
      ∙ ap
          (λ own.
            if any (λ m. m.object == o) (runtime_modules p.sys_modules)
            then replaced (override_of n co) own
            else own)
          (set_all-seen settings so p.heap o n)
