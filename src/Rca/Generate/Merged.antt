-- ===== src/Rca/Generate/Merged.antt =====
-- `_dedupe_causes`: one cause for each key, and none that a cause of its key outdoes.
use mathlib.Core.Path.{subst}
use becertain.Prelude.{
  ◌≡◌, refl, sym, ◌∙◌, ap, true, false, List, [], ◌∷◌, ◌&&◌, str_eq, eq_iff, inl, inr, All, All-imp,
  Bool-cases, arith,
}
use becertain.Prelude.Sorting.{AnyOf}
use becertain.Prelude.Sorting.Pairs.{Pairwise}
use becertain.Correlation.{Arithmetic}
use becertain.Rca.{category_value, RootCause}
use becertain.Rca.Generate.{wins, merged, same_key, select_cause, dedupe_causes, with_services_of}

module _ {F : Type 0} (fl : Arithmetic F) where
  -- Two causes of different keys.
  abbrev pub AreDistinct : RootCause F → RootCause F → Type 0
  AreDistinct a b = same_key fl a b ≡ false

  -- A cause of the same key, with no lower confidence.
  abbrev pub Covers : RootCause F → RootCause F → Type 0
  Covers d c = (same_key fl d c ≡ true) × (fl.lt c.confidence d.confidence ≡ false)

  same_key-flip : (a b : RootCause F) → same_key fl a b ≡ same_key fl b a
  same_key-flip a b = ground (
    arith,
    eq_iff (category_value a.category) (category_value b.category),
    eq_iff (category_value b.category) (category_value a.category),
    eq_iff a.hypothesis b.hypothesis,
    eq_iff b.hypothesis a.hypothesis,
  )

  pub AreDistinct-flip : (a b : RootCause F) → AreDistinct a b → AreDistinct b a
  AreDistinct-flip a b h = same_key-flip b a ∙ h

  same_key_refl : (a : RootCause F) → same_key fl a a ≡ true
  same_key_refl a = ground (
    arith,
    eq_iff (category_value a.category) (category_value a.category),
    eq_iff a.hypothesis a.hypothesis,
  )

  same_key_congruent :
      (d a b : RootCause F) → same_key fl a b ≡ true → same_key fl d a ≡ same_key fl d b
  same_key_congruent d a b h =
      let categories : category_value a.category ≡ category_value b.category =
        ground (arith, eq_iff (category_value a.category) (category_value b.category)) in
      let hypotheses : a.hypothesis ≡ b.hypothesis =
        ground (arith, eq_iff a.hypothesis b.hypothesis) in
      ap (λ c. str_eq (category_value d.category) c && str_eq d.hypothesis a.hypothesis) categories
      ∙ ap
          (λ n.
            str_eq (category_value d.category) (category_value b.category) && str_eq d.hypothesis n)
          hypotheses

  -- A merged cause has the key of both.
  same_key-merged :
      (d cause current : RootCause F)
      → same_key fl cause current ≡ true
      → same_key fl d (merged fl cause current) ≡ same_key fl d current
  unfolding merged
  same_key-merged d cause current h = elim (Bool-cases (wins fl cause current)) [
    | inl won ↦
        let winner : merged fl cause current ≡ with_services_of fl cause current = rw won refl in
        ap (same_key fl d) winner ∙ same_key_congruent d cause current h
    | inr lost ↦
        let winner : merged fl cause current ≡ with_services_of fl current cause = rw lost refl in
        ap (same_key fl d) winner
  ]

  AreDistinct-select :
      (x cause : RootCause F) (selected : List (RootCause F))
      → AreDistinct x cause
      → All (AreDistinct x) selected
      → All (AreDistinct x) (select_cause fl cause selected)
  unfolding select_cause
  AreDistinct-select x cause [] p h = (p, tt)
  AreDistinct-select x cause (current ∷ selected) p h =
      elim (Bool-cases (same_key fl cause current)) [
        | inl same ↦ rw same (same_key-merged x cause current same ∙ h.0, h.1)
        | inr other ↦ rw other (h.0, AreDistinct-select x cause selected p h.1)
      ]

  Pairwise-select :
      (cause : RootCause F) (selected : List (RootCause F))
      → Pairwise AreDistinct selected
      → Pairwise AreDistinct (select_cause fl cause selected)
  unfolding select_cause
  Pairwise-select cause [] h = (tt, tt)
  Pairwise-select cause (current ∷ selected) h = elim (Bool-cases (same_key fl cause current)) [
    | inl same ↦ rw same (
      All-imp _ _ selected
          (λ y apart.
            AreDistinct-flip y (merged fl cause current)
              (same_key-merged y cause current same ∙ AreDistinct-flip current y apart))
          h.0,
      h.1,
    )
    | inr other ↦ rw other (
      AreDistinct-select current cause selected (AreDistinct-flip cause current other) h.0,
      Pairwise-select cause selected h.1,
    )
  ]

  pub Pairwise-dedupe_causes :
      (causes selected : List (RootCause F))
      → Pairwise AreDistinct selected
      → Pairwise AreDistinct (dedupe_causes fl causes selected)
  unfolding dedupe_causes
  Pairwise-dedupe_causes [] selected h = h
  Pairwise-dedupe_causes (cause ∷ causes) selected h =
      Pairwise-dedupe_causes causes (select_cause fl cause selected)
        (Pairwise-select cause selected h)

  module _ (asym : (x y : F) → fl.lt x y ≡ true → fl.lt y x ≡ false)
      (trans : (x y z : F) → fl.lt y x ≡ false → fl.lt z y ≡ false → fl.lt z x ≡ false) where
    irrefl : (x : F) → fl.lt x x ≡ false
    irrefl x = ground (arith, asym x x)

    abbrev IsHigh : RootCause F → RootCause F → RootCause F → Type 0
    IsHigh a b winner =
        (fl.lt winner.confidence a.confidence ≡ false)
        × (fl.lt winner.confidence b.confidence ≡ false)

    -- A merged cause is outdone by neither.
    merged-IsHigh : (cause current : RootCause F) → IsHigh cause current (merged fl cause current)
    unfolding merged
    merged-IsHigh cause current = elim (Bool-cases (wins fl cause current)) [
      | inl won ↦
          let winner : merged fl cause current ≡ with_services_of fl cause current = rw won refl in
          subst (IsHigh cause current) (sym winner)
            (irrefl cause.confidence, ground (arith, asym current.confidence cause.confidence))
      | inr lost ↦
          let winner : merged fl cause current ≡ with_services_of fl current cause = rw lost refl in
          subst (IsHigh cause current) (sym winner) (ground arith, irrefl current.confidence)
    ]

    Covers-merged :
        (d cause current : RootCause F)
        → same_key fl cause current ≡ true
        → Covers d current
        → Covers d (merged fl cause current)
    Covers-merged d cause current same h = (
      same_key-merged d cause current same ∙ h.0,
      trans d.confidence current.confidence _ h.1 (merged-IsHigh cause current).1,
    )

    Covers-select_self :
        (cause : RootCause F) (selected : List (RootCause F))
        → AnyOf (Covers cause) (select_cause fl cause selected)
    unfolding select_cause
    Covers-select_self cause [] = inl (same_key_refl cause, irrefl cause.confidence)
    Covers-select_self cause (current ∷ selected) = elim (Bool-cases (same_key fl cause current)) [
      | inl same ↦
          rw same
            (inl (same_key-merged cause cause current same ∙ same, (merged-IsHigh cause current).0))
      | inr other ↦ rw other (inr (Covers-select_self cause selected))
    ]

    Covers-select :
        (d cause : RootCause F) (selected : List (RootCause F))
        → AnyOf (Covers d) selected
        → AnyOf (Covers d) (select_cause fl cause selected)
    unfolding select_cause
    Covers-select d cause [] h = elim h [ ]
    Covers-select d cause (current ∷ selected) h = elim (Bool-cases (same_key fl cause current)) [
      | inl same ↦
          rw same
            (elim h [ inl p ↦ inl (Covers-merged d cause current same p) | inr rest ↦ inr rest ])
      | inr other ↦
          rw other (elim h [ inl p ↦ inl p | inr rest ↦ inr (Covers-select d cause selected rest) ])
    ]

    Covers-dedupe :
        (d : RootCause F) (causes selected : List (RootCause F))
        → AnyOf (Covers d) selected
        → AnyOf (Covers d) (dedupe_causes fl causes selected)
    unfolding dedupe_causes
    Covers-dedupe d [] selected h = h
    Covers-dedupe d (cause ∷ causes) selected h =
        Covers-dedupe d causes (select_cause fl cause selected) (Covers-select d cause selected h)

    pub Covers-dedupe_causes :
        (causes selected : List (RootCause F))
        → All (λ d. AnyOf (Covers d) (dedupe_causes fl causes selected)) causes
    unfolding dedupe_causes
    Covers-dedupe_causes [] selected = tt
    Covers-dedupe_causes (cause ∷ causes) selected = (
      Covers-dedupe cause causes (select_cause fl cause selected)
          (Covers-select_self cause selected),
      Covers-dedupe_causes causes (select_cause fl cause selected),
    )
