-- ===== src/Settings/Runtime/Restored.antt =====
-- What `apply_runtime_overrides` leaves behind.
use becertain.Prelude.{
  ℕ, ◌≡◌, refl, sym, ◌∙◌, ap, String, Bool, true, false, List, [], ◌∷◌, ◌++◌, Option, none, some,
  ◌⊎◌, inl, inr, Option-cases, arith, ◌==◌, ◌&&◌, any, if◌then◌else◌,
}
use becertain.Settings.Runtime.Heap.{
  or_saved, get-set_attr, get_at, get-append, get-restore-reversed, get-restore,
  original_setting_values-AreOf, set_all-get,
}
use becertain.Settings.Runtime.Saved.{
  is_some, has_key, is_overridden, original_setting_values-saved, get-restore-none,
  override_modules-saved,
}
use becertain.Settings.{attribute_error}
use becertain.Settings.Runtime.{
  raised, Module, Cell, Process, Ending, cell, is_at, get_attr, set_attr, original_setting_values,
  set_all, override_attr, override_module, override_modules, restore, reversed, overridden,
  with_overrides, within_lock, apply_runtime_overrides, runtime_modules,
}

module _ {V : Type 0} where
  -- What the loops over the modules keep: an attribute that was saved has the value of the start as
  -- its first saved one, and any other still has it.
  abbrev IsKept : List (Cell V) → List (Cell V) × List (Cell V) → Type 0
  IsKept start (heap, originals) =
      (o : ℕ) (n : String)
      → or_saved (get_attr o n originals) (get_attr o n heap) ≡ get_attr o n start

  -- What is saved a second time is behind what was saved first.
  first_kept :
      (original value : V) (saved now start : Option V)
      → or_saved saved now ≡ start
      → (b : Bool) → (b ≡ true → now ≡ some original)
      → or_saved
          (or_saved saved (if b then some original else none))
          (if b then some value else now)
        ≡ start
  first_kept original value (some v) now start h b k = h
  first_kept original value none now start h false k = h
  first_kept original value none now start h true k = sym (k refl) ∙ h

  IsKept-set_attr :
      (start : List (Cell V)) (object : ℕ) (name : String) (value original : V)
      (heap originals : List (Cell V))
      → IsKept start (heap, originals)
      → get_attr object name heap ≡ some original
      → IsKept start
          (set_attr object name value heap, originals ++ (cell object name original ∷ []))
  unfolding get_attr
  IsKept-set_attr start object name value original heap originals h found o n =
      ap (λ w. or_saved w (get_attr o n (set_attr object name value heap)))
        (get-append o n originals (cell object name original ∷ []))
      ∙ ap (or_saved _) (get-set_attr o object n name value heap)
      ∙ first_kept original value (get_attr o n originals) (get_attr o n heap) (get_attr o n start)
          (h o n) (is_at o n (cell object name original))
          (get_at o n (cell object name original) heap found)

  IsKept-override_attr :
      (start : List (Cell V)) (object : ℕ) (name : String) (value : V)
      (s : List (Cell V) × List (Cell V))
      → IsKept start s
      → IsKept start (override_attr object name value s)
  unfolding override_attr
  IsKept-override_attr start object name value (heap, originals) h =
      replaced (get_attr object name heap) refl
    where
      replaced :
          (found : Option V)
          → get_attr object name heap ≡ found
          → IsKept start (elim found [
            | none ↦ (heap, originals)
            | some original ↦
                (set_attr object name value heap, originals ++ (cell object name original ∷ []))
          ])
      replaced none e = h
      replaced (some original) e =
          IsKept-set_attr start object name value original heap originals h e

  IsKept-override_module :
      (start : List (Cell V)) (object : ℕ) (constants : List (String × V))
      (s : List (Cell V) × List (Cell V))
      → IsKept start s
      → IsKept start (override_module object constants s)
  unfolding override_module
  IsKept-override_module start object [] s h = h
  IsKept-override_module start object ((name, value) ∷ rest) s h =
      IsKept-override_module start object rest (override_attr object name value s)
        (IsKept-override_attr start object name value s h)

  IsKept-override_modules :
      (start : List (Cell V)) (modules : List Module) (constants : List (String × V))
      (s : List (Cell V) × List (Cell V))
      → IsKept start s
      → IsKept start (override_modules modules constants s)
  unfolding override_modules
  IsKept-override_modules start [] constants s h = h
  IsKept-override_modules start (m ∷ modules) constants s h =
      IsKept-override_modules start modules constants (override_module m.object constants s)
        (IsKept-override_module start m.object constants s h)

  override_modules_nil :
      (modules : List Module) (s : List (Cell V) × List (Cell V))
      → override_modules modules [] s ≡ s
  unfolding override_modules override_module
  override_modules_nil [] s = refl
  override_modules_nil (m ∷ modules) s = override_modules_nil modules s

module _ {V : Type 0} where
  -- A value that is there is the one that was saved.
  saved_start :
      (saved inside start after : Option V)
      → or_saved saved inside ≡ start
      → is_some saved ≡ true
      → or_saved saved after ≡ start
  saved_start (some v) inside start after h there = h
  saved_start none inside start after h there = absurd (ground arith)

  not_saved : (saved after : Option V) → is_some saved ≡ false → or_saved saved after ≡ after
  not_saved none after h = refl
  not_saved (some v) after h = absurd (ground arith)

module _ {V R : Type 0} (settings : ℕ) (body : Process V → Process V × Ending R) where
  -- What was overridden has its old value, and all else has what the body left there.
  abbrev pub IsRestored :
      List (String × V) → List (String × V) → Process V → Process V → Process V → Type 0
  IsRestored so co before after final =
      (o : ℕ) (n : String)
      → (is_overridden settings so co before o n ≡ true
          → get_attr o n final.heap ≡ get_attr o n before.heap)
        × (is_overridden settings so co before o n ≡ false
            → get_attr o n final.heap ≡ get_attr o n after.heap)

  with_overrides-IsRestored :
      (so co : List (String × V)) (os : List (Cell V)) (p : Process V)
      → original_setting_values settings so p.heap ≡ some os
      → IsRestored so co p
          (body (overridden settings so co p).0).0
          (with_overrides settings body so co os p).0
  unfolding with_overrides overridden get_attr
  with_overrides-IsRestored so co os p e o n =
      let modules = runtime_modules p.sys_modules in
      let set = set_all settings so p.heap in
      let loops = override_modules modules co (set, []) in
      let after = (body (overridden settings so co p).0).0.heap in
      let back = restore (reversed loops.1) after in
      let of_settings = original_setting_values-saved settings so p.heap os o n e in
      let kept = IsKept-override_modules set modules co (set, []) (λ q m. refl) o n in
      elim (Option-cases (get_attr o n os)) [
        | inr (v, saved) ↦
            let own : ((settings == o) && has_key n so) ≡ true =
              sym of_settings ∙ ap is_some saved in
            (
              λ yes.
                  elim (get-restore o n p.heap os back
                    (original_setting_values-AreOf settings so p.heap os e)) [
                      | inl done ↦ done
                      | inr (no_setting, same) ↦ absurd (ground arith)
                    ],
              λ no. absurd (ground arith),
            )
        | inl none_saved ↦
            let own : ((settings == o) && has_key n so) ≡ false =
              sym of_settings ∙ ap is_some none_saved in
            let start = set_all-get settings so p.heap p.heap os o n e none_saved in
            let read =
              get-restore-none o n os back none_saved ∙ get-restore-reversed o n loops.1 after in
            let of_modules =
              override_modules-saved modules co (set, []) o n
              ∙ ap (λ x. any (λ m. m.object == o) modules && has_key n co && is_some x) start in
            (
              λ yes.
                  read
                  ∙ saved_start (get_attr o n loops.1) _ _ (get_attr o n after) (kept ∙ start)
                      (of_modules ∙ (rw own at yes)),
              λ no.
                  read
                  ∙ not_saved (get_attr o n loops.1) (get_attr o n after)
                      (of_modules ∙ (rw own at no)),
            )
      ]

  -- The settings cannot be read, as one of the overridden ones is missing.
  abbrev pub IsUnreadable : List (String × V) → Process V → Type 0
  IsUnreadable so p = original_setting_values settings so p.heap ≡ none

  -- How the context manager ends.
  abbrev pub IsLeft :
      List (String × V) → List (String × V) → Process V → Process V × Ending R → Type 0
  IsLeft so co p final =
      let (after, ending) = body (overridden settings so co p).0 in
      (IsUnreadable so p × (final ≡ (p, raised attribute_error)))
      ⊎ (IsRestored so co p after final.0 × (final.1 ≡ ending))

  within_lock-IsLeft :
      (so co : List (String × V)) (os : Option (List (Cell V))) (p : Process V)
      → original_setting_values settings so p.heap ≡ os
      → IsLeft so co p (within_lock settings body so co os p)
  unfolding within_lock with_overrides
  within_lock-IsLeft so co none p e = inl (e, refl)
  within_lock-IsLeft so co (some os) p e = inr (with_overrides-IsRestored so co os p e, refl)

  overridden_nil : (p : Process V) → (overridden settings [] [] p).0 ≡ p
  unfolding overridden set_all
  overridden_nil p =
      ap (λ s. record p { heap = s.0 })
        (override_modules_nil (runtime_modules p.sys_modules) (p.heap, []))

  -- `apply_runtime_overrides` ends as its body ends, whatever the body did and however it ended, and
  -- then every overridden setting, and every overridden constant of a module of the service that has
  -- it, has the value that it had before; every other attribute of any object is as the body left it.
  -- Or an overridden setting is missing, the body does not run, and the process is as it was.
  pub apply_runtime_overrides-IsRestored :
      (so co : List (String × V)) (p : Process V)
      → IsLeft so co p (apply_runtime_overrides settings body so co p)
  unfolding apply_runtime_overrides
  apply_runtime_overrides-IsRestored [] [] p = inr (
    λ o n. (
      λ yes. absurd (ground arith),
      λ no. ap (λ q. get_attr o n (body q).0.heap) (sym (overridden_nil p)),
    ),
    ap (λ q. (body q).1) (sym (overridden_nil p)),
  )
  apply_runtime_overrides-IsRestored so co p =
      within_lock-IsLeft so co (original_setting_values settings so p.heap) p refl
