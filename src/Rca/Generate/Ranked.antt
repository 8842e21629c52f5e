-- ===== src/Rca/Generate/Ranked.antt =====
-- The causes that are shown: in the order of confidence, one for each key, none lost.
use becertain.Prelude.{
  ◌≡◌, ◌≢◌, refl, true, false, List, [], ◌∷◌, ◌⊎◌, inl, inr, All, All-imp, Bool-cases, filter,
}
use becertain.Prelude.Sorting.{AnyOf, AnyOf-sort_by, sort_by}
use becertain.Prelude.Sorting.Pairs.{
  Pairwise, Pairwise-filter, Pairwise-sort_by, InOrder, InOrder-sort_by, AnyOf-filter,
}
use becertain.Correlation.{Arithmetic}
use becertain.Rca.{RootCause}
use becertain.Rca.Generate.{shown_causes, dedupe_causes, below, low_confidence, or_top}
use becertain.Rca.Generate.Merged.{
  AreDistinct, AreDistinct-flip, Covers, Pairwise-dedupe_causes, Covers-dedupe_causes,
}

-- What the order of the causes needs of the comparison of floats that are numbers.
pub record IsOrdering {F : Type 0} (fl : Arithmetic F) : Type 0 where
  pub asym : (x y : F) → fl.lt x y ≡ true → fl.lt y x ≡ false
  pub trans : (x y z : F) → fl.lt y x ≡ false → fl.lt z y ≡ false → fl.lt z x ≡ false
  pub lt_le : (x y z : F) → fl.le x y ≡ true → fl.lt z y ≡ false → fl.le x z ≡ true

module _ {F : Type 0} (fl : Arithmetic F) (min_conf : F) where
  abbrev pub IsShown : RootCause F → Type 0
  IsShown c = fl.le min_conf c.confidence ≡ true

  -- What is shown of the causes that were collected.
  abbrev pub IsRanking : List (RootCause F) → List (RootCause F) → Type 0
  IsRanking causes shown =
      InOrder (below fl) shown
      × Pairwise (AreDistinct fl) shown
      × (All IsShown shown
          ⊎ (((top : RootCause F) × (shown ≡ low_confidence fl top ∷ []))
              × All (λ d. fl.le min_conf d.confidence ≡ false) causes))
      × All (λ d. IsShown d → AnyOf (Covers fl d) shown) causes
      × (causes ≢ [] → shown ≢ [])

  All-filter-IsShown :
      (causes : List (RootCause F)) → All IsShown (filter (λ c. fl.le min_conf c.confidence) causes)
  All-filter-IsShown [] = tt
  All-filter-IsShown (c ∷ causes) = elim (Bool-cases (fl.le min_conf c.confidence)) [
    | inl shown ↦ rw shown (shown, All-filter-IsShown causes)
    | inr hidden ↦ rw hidden (All-filter-IsShown causes)
  ]

  -- No cause that is collected may be shown.
  none-IsShown :
      (causes : List (RootCause F))
      → All (λ d. IsShown d → AnyOf (Covers fl d) []) causes
      → All (λ d. fl.le min_conf d.confidence ≡ false) causes
  none-IsShown causes h =
      All-imp (λ d. IsShown d → ⊥) _ causes
        (λ d hidden. elim (Bool-cases (fl.le min_conf d.confidence)) [
          | inl shown ↦ absurd (hidden shown)
          | inr not_shown ↦ not_shown
        ])
        h

  or_top-IsRanking :
      (causes sorted filtered : List (RootCause F))
      → InOrder (below fl) filtered
      → Pairwise (AreDistinct fl) filtered
      → All IsShown filtered
      → All (λ d. IsShown d → AnyOf (Covers fl d) filtered) causes
      → All (λ d. AnyOf (Covers fl d) sorted) causes
      → IsRanking causes (or_top fl filtered sorted)
  or_top-IsRanking causes sorted (c ∷ filtered) a b shown d e =
      (a, b, inl shown, d, λ some_cause none_left. cc)
  or_top-IsRanking [] [] [] a b shown d e =
      (tt, tt, inl tt, tt, λ some_cause none_left. some_cause refl)
  or_top-IsRanking (cause ∷ causes) [] [] a b shown d e = elim e.0 [ ]
  or_top-IsRanking causes (top ∷ sorted) [] a b shown d e = (
    (tt, tt),
    (tt, tt),
    inr ((top, refl), none-IsShown causes d),
    All-imp (λ d. IsShown d → ⊥) _ causes (λ d hidden seen. absurd (hidden seen)) d,
    λ some_cause none_left. cc,
  )

  module _ (laws : IsOrdering fl) where
    sorted_causes : List (RootCause F) → List (RootCause F)
    sorted_causes causes = sort_by (below fl) (dedupe_causes fl causes [])

    Covers-sorted :
        (causes : List (RootCause F)) → All (λ d. AnyOf (Covers fl d) (sorted_causes causes)) causes
    unfolding sorted_causes
    Covers-sorted causes =
        All-imp (λ d. AnyOf (Covers fl d) (dedupe_causes fl causes [])) _ causes
          (λ d h. AnyOf-sort_by (below fl) (Covers fl d) _ h)
          (Covers-dedupe_causes fl laws.asym laws.trans causes [])

    InOrder-sorted : (causes : List (RootCause F)) → InOrder (below fl) (sorted_causes causes)
    unfolding sorted_causes
    InOrder-sorted causes =
        InOrder-sort_by (below fl) (λ a b h. laws.asym _ _ h)
          (λ a b c h k. laws.trans c.confidence b.confidence a.confidence k h) _

    AreDistinct-sorted :
        (causes : List (RootCause F)) → Pairwise (AreDistinct fl) (sorted_causes causes)
    unfolding sorted_causes
    AreDistinct-sorted causes =
        Pairwise-sort_by (below fl) (AreDistinct fl) (AreDistinct-flip fl) _
          (Pairwise-dedupe_causes fl causes [] tt)

    Covers-filtered :
        (causes : List (RootCause F))
        → All
            (λ d.
              IsShown d
              → AnyOf
                  (Covers fl d)
                  (filter (λ c. fl.le min_conf c.confidence) (sorted_causes causes)))
            causes
    Covers-filtered causes =
        All-imp (λ d. AnyOf (Covers fl d) (sorted_causes causes)) _ causes
          (λ d h shown.
            AnyOf-filter (Covers fl d) (λ c. fl.le min_conf c.confidence) _
              (λ c covers. laws.lt_le min_conf d.confidence c.confidence shown covers.1) h)
          (Covers-sorted causes)

    pub shown_causes-IsRanking :
        (causes : List (RootCause F)) → IsRanking causes (shown_causes fl min_conf causes)
    unfolding shown_causes sorted_causes
    shown_causes-IsRanking causes =
        or_top-IsRanking causes (sorted_causes causes)
          (filter (λ c. fl.le min_conf c.confidence) (sorted_causes causes))
          (Pairwise-filter _ (λ c. fl.le min_conf c.confidence) _ (InOrder-sorted causes))
          (Pairwise-filter _ (λ c. fl.le min_conf c.confidence) _ (AreDistinct-sorted causes))
          (All-filter-IsShown (sorted_causes causes)) (Covers-filtered causes)
          (Covers-sorted causes)
