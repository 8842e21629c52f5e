-- ===== src/Settings/Runtime/Heap.antt =====
-- Reading an attribute behind the writes of `apply_runtime_overrides`.
use becertain.Prelude.{
  ℕ, ◌≡◌, refl, sym, ◌∙◌, ap, String, true, false, List, [], ◌∷◌, ◌++◌, Option, none, some, eq_iff,
  ◌⊎◌, inl, inr, All, Bool-cases, arith, if◌then◌else◌,
}
use becertain.Store.Documents.{bind-some, of_some}
use becertain.Settings.Runtime.{
  Cell, cell, is_at, get_attr, set_attr, original_setting_values, set_all, restore, reversed,
}

module _ {V : Type 0} where
  -- The value in a list of saved cells, or else another one.
  abbrev pub or_saved : Option V → Option V → Option V
  or_saved none other = other
  or_saved (some v) other = some v

  pub get-set_attr :
      (o q : ℕ) (n m : String) (v : V) (heap : List (Cell V))
      → get_attr o n (set_attr q m v heap)
        ≡ (if is_at o n (cell q m v) then some v else get_attr o n heap)
  unfolding get_attr set_attr
  get-set_attr o q n m v [] = refl
  get-set_attr o q n m v (c ∷ heap) =
      ground (arith, eq_iff c.name m, eq_iff c.name n, eq_iff m n, get-set_attr o q n m v heap)

  pub is_at-eq :
      (o : ℕ) (n : String) (c : Cell V) → is_at o n c ≡ true → (c.object ≡ o) × (c.name ≡ n)
  is_at-eq o n c h = ground (arith, eq_iff c.name n)

  -- A cell of the heap has the value that its attribute has.
  pub get_at :
      (o : ℕ) (n : String) (c : Cell V) (heap : List (Cell V))
      → get_attr c.object c.name heap ≡ some c.value
      → is_at o n c ≡ true
      → get_attr o n heap ≡ some c.value
  get_at o n c heap h here =
      let (e1, e2) = is_at-eq o n c here in
      ap (λ q. get_attr q n heap) (sym e1) ∙ ap (λ m. get_attr c.object m heap) (sym e2) ∙ h

  pub get-append :
      (o : ℕ) (n : String) (cs ds : List (Cell V))
      → get_attr o n (cs ++ ds) ≡ or_saved (get_attr o n cs) (get_attr o n ds)
  unfolding get_attr
  get-append o n [] ds = refl
  get-append o n (c ∷ cs) ds = ground (arith, get-append o n cs ds)

  pub restore-append :
      (cs ds heap : List (Cell V)) → restore (cs ++ ds) heap ≡ restore ds (restore cs heap)
  unfolding restore
  restore-append [] ds heap = refl
  restore-append (c ∷ cs) ds heap = restore-append cs ds (set_attr c.object c.name c.value heap)

  -- Restored in reverse order, an attribute has the value that was saved first.
  pub get-restore-reversed :
      (o : ℕ) (n : String) (cs heap : List (Cell V))
      → get_attr o n (restore (reversed cs) heap) ≡ or_saved (get_attr o n cs) (get_attr o n heap)
  unfolding reversed restore get_attr
  get-restore-reversed o n [] heap = refl
  get-restore-reversed o n (c ∷ cs) heap =
      ap (get_attr o n) (restore-append (reversed cs) (c ∷ []) heap)
      ∙ get-set_attr o c.object n c.name c.value (restore (reversed cs) heap)
      ∙ first (get-restore-reversed o n cs heap)
    where
      first :
          get_attr o n (restore (reversed cs) heap) ≡ or_saved (get_attr o n cs) (get_attr o n heap)
          → (if is_at o n c then some c.value else get_attr o n (restore (reversed cs) heap))
            ≡ or_saved (if is_at o n c then some c.value else get_attr o n cs) (get_attr o n heap)
      first ih = elim (Bool-cases (is_at o n c)) [
        | inl here ↦ rw here refl
        | inr later ↦ rw later ih
      ]

  -- Cells that were saved of a heap.
  abbrev pub AreOf : List (Cell V) → List (Cell V) → Type 0
  AreOf heap cs = All (λ c. get_attr c.object c.name heap ≡ some c.value) cs

  pub get-restore :
      (o : ℕ) (n : String) (before cs heap : List (Cell V))
      → AreOf before cs
      → (get_attr o n (restore cs heap) ≡ get_attr o n before)
        ⊎ ((get_attr o n cs ≡ none) × (get_attr o n (restore cs heap) ≡ get_attr o n heap))
  unfolding restore get_attr
  get-restore o n before [] heap h = inr (refl, refl)
  get-restore o n before (c ∷ cs) heap h =
      elim (get-restore o n before cs (set_attr c.object c.name c.value heap) h.1) [
        | inl done ↦ inl done
        | inr (none_saved, same) ↦ elim (Bool-cases (is_at o n c)) [
          | inl here ↦ inl (
              same
              ∙ get-set_attr o c.object n c.name c.value heap
              ∙ ap (λ b. if b then some c.value else get_attr o n heap) here
              ∙ sym (get_at o n c before h.0 here))
          | inr later ↦ rw later (
              inr (
                none_saved,
                same
                    ∙ get-set_attr o c.object n c.name c.value heap
                    ∙ ap (λ b. if b then some c.value else get_attr o n heap) later,
              ))
        ]
      ]

  -- The settings that are saved first.
  pub original_setting_values-AreOf :
      (settings : ℕ) (overrides : List (String × V)) (heap cs : List (Cell V))
      → original_setting_values settings overrides heap ≡ some cs
      → AreOf heap cs
  unfolding original_setting_values
  original_setting_values-AreOf settings [] heap cs e = of_some (AreOf heap) e tt
  original_setting_values-AreOf settings ((key, v) ∷ rest) heap cs e =
      let (value, found, e1) = bind-some (get_attr settings key heap) _ cs e in
      let (values, saved, e2) = bind-some (original_setting_values settings rest heap) _ cs e1 in
      of_some (AreOf heap) e2 (found, original_setting_values-AreOf settings rest heap values saved)

  module _ (o : ℕ) (n : String) (c : Cell V) (cs : List (Cell V)) where
    pub not_first : get_attr o n (c ∷ cs) ≡ none → is_at o n c ≡ false
    unfolding get_attr
    not_first h = ground arith

    pub later_none : get_attr o n (c ∷ cs) ≡ none → get_attr o n cs ≡ none
    unfolding get_attr
    later_none h = ground arith

  pub set_all-get :
      (settings : ℕ) (overrides : List (String × V)) (heap now cs : List (Cell V)) (o : ℕ)
      (n : String)
      → original_setting_values settings overrides heap ≡ some cs
      → get_attr o n cs ≡ none
      → get_attr o n (set_all settings overrides now) ≡ get_attr o n now
  unfolding set_all original_setting_values get_attr
  set_all-get settings [] heap now cs o n e h = refl
  set_all-get settings ((key, v) ∷ rest) heap now cs o n e h =
      let (value, found, e1) = bind-some (get_attr settings key heap) _ cs e in
      let (values, saved, e2) = bind-some (original_setting_values settings rest heap) _ cs e1 in
      of_some
        (λ saved_cells.
          get_attr o n saved_cells ≡ none
          → get_attr o n (set_all settings rest (set_attr settings key v now)) ≡ get_attr o n now)
        e2
        (λ h'.
          set_all-get settings rest heap (set_attr settings key v now) values o n saved
            (later_none o n (cell settings key value) values h')
          ∙ get-set_attr o settings n key v now
          ∙ ap (λ b. if b then some v else get_attr o n now)
              (not_first o n (cell settings key value) values h'))
        h
