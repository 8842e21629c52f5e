-- ===== src/Prelude/Sorting.antt =====
-- `sorted` by a key, a stable sort: `first b a` says that `b` has to come before `a`.
pub mod Pairs
use mathlib.Core.Path.{◌≡◌}
use mathlib.Core.Logic.{◌⊎◌, inl, inr}
use mathlib.Core.Bool.{Bool, true, false}
use mathlib.Core.List.{List, [], ◌∷◌, ◌++◌}
use becertain.Prelude.Tests.{Bool-cases, if◌then◌else◌}
use becertain.Prelude.Lists.{All}

-- Some element has the property.
abbrev pub AnyOf : {A : Type 0} → (A → Type 0) → List A → Type 0
AnyOf P [] = ⊥
AnyOf P (a ∷ as') = P a ⊎ AnyOf P as'

module _ {A : Type 0} (P : A → Type 0) where
  pub AnyOf-append_left : (as' bs : List A) → AnyOf P as' → AnyOf P (as' ++ bs)
  AnyOf-append_left [] bs h = elim h [ ]
  AnyOf-append_left (a ∷ as') bs h = elim h [
    | inl p ↦ inl p
    | inr rest ↦ inr (AnyOf-append_left as' bs rest)
  ]

  pub AnyOf-append_right : (as' bs : List A) → AnyOf P bs → AnyOf P (as' ++ bs)
  AnyOf-append_right [] bs h = h
  AnyOf-append_right (a ∷ as') bs h = inr (AnyOf-append_right as' bs h)

module _ {A : Type 0} (first : A → A → Bool) where
  abbrev pub insert_by : A → List A → List A
  insert_by a [] = a ∷ []
  insert_by a (b ∷ bs) = if first b a then b ∷ insert_by a bs else a ∷ b ∷ bs

  unfoldable pub sort_by : List A → List A
  sort_by [] = []
  sort_by (a ∷ as') = insert_by a (sort_by as')

  pub All-insert_by :
      (P : A → Type 0) (a : A) (bs : List A) → P a → All P bs → All P (insert_by a bs)
  All-insert_by P a [] p h = (p, tt)
  All-insert_by P a (b ∷ bs) p h = elim (Bool-cases (first b a)) [
    | inl before ↦ rw before (h.0, All-insert_by P a bs p h.1)
    | inr after ↦ rw after (p, h)
  ]

  -- What holds of all elements holds of all elements of the sorted list.
  pub All-sort_by : (P : A → Type 0) (as' : List A) → All P as' → All P (sort_by as')
  unfolding sort_by
  All-sort_by P [] h = tt
  All-sort_by P (a ∷ as') h = All-insert_by P a (sort_by as') h.0 (All-sort_by P as' h.1)

  -- No element has to come before the one that it follows.
  abbrev pub IsSorted : List A → Type 0
  IsSorted [] = Unit
  IsSorted (a ∷ []) = Unit
  IsSorted (a ∷ b ∷ bs) = (first b a ≡ false) × IsSorted (b ∷ bs)

  module _ (asym : (a b : A) → first a b ≡ true → first b a ≡ false) where
    IsSorted-insert_by : (a : A) (bs : List A) → IsSorted bs → IsSorted (insert_by a bs)
    IsSorted-insert_by a [] h = tt
    IsSorted-insert_by a (b ∷ []) h = elim (Bool-cases (first b a)) [
      | inl before ↦ rw before (asym b a before, tt)
      | inr after ↦ rw after (after, tt)
    ]
    IsSorted-insert_by a (b ∷ c ∷ cs) h = elim (Bool-cases (first b a)) [
      | inl before ↦ elim (Bool-cases (first c a)) [
        | inl also ↦
            let rest = IsSorted-insert_by a (c ∷ cs) h.1 in rw (before, also) (h.0, rw also at rest)
        | inr last ↦ rw (before, last) (asym b a before, (last, h.1))
      ]
      | inr after ↦ rw after (after, h)
    ]

    pub IsSorted-sort_by : (as' : List A) → IsSorted (sort_by as')
    unfolding sort_by
    IsSorted-sort_by [] = tt
    IsSorted-sort_by (a ∷ as') = IsSorted-insert_by a (sort_by as') (IsSorted-sort_by as')

  AnyOf-insert_by :
      (P : A → Type 0) (a : A) (bs : List A) → P a ⊎ AnyOf P bs → AnyOf P (insert_by a bs)
  AnyOf-insert_by P a [] h = h
  AnyOf-insert_by P a (b ∷ bs) h = elim (Bool-cases (first b a)) [
    | inl before ↦ rw before (elim h [
      | inl p ↦ inr (AnyOf-insert_by P a bs (inl p))
      | inr rest ↦ elim rest [
        | inl q ↦ inl q
        | inr later ↦ inr (AnyOf-insert_by P a bs (inr later))
      ]
    ])
    | inr after ↦ rw after h
  ]

  -- Sorting drops no element.
  pub AnyOf-sort_by : (P : A → Type 0) (as' : List A) → AnyOf P as' → AnyOf P (sort_by as')
  unfolding sort_by
  AnyOf-sort_by P [] h = elim h [ ]
  AnyOf-sort_by P (a ∷ as') h =
      AnyOf-insert_by P a (sort_by as')
        (elim h [ inl p ↦ inl p | inr rest ↦ inr (AnyOf-sort_by P as' rest) ])
