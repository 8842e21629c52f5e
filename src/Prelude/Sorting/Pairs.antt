-- ===== src/Prelude/Sorting/Pairs.antt =====
-- A relation between each element and those behind it: what `sorted` and a filter keep of it.
use mathlib.Core.Path.{◌≡◌}
use mathlib.Core.Bool.{Bool, true, false}
use mathlib.Core.List.{List, [], ◌∷◌}
use becertain.Prelude.Tests.{Bool-cases}
use becertain.Prelude.Lists.{All, All-imp, All-filter, filter}
use becertain.Prelude.Sorting.{insert_by, sort_by, AnyOf, All-insert_by, All-sort_by}
use mathlib.Core.Logic.{inl, inr}

module _ {A : Type 0} where
  abbrev pub Pairwise : (A → A → Type 0) → List A → Type 0
  Pairwise R [] = Unit
  Pairwise R (a ∷ as') = All (R a) as' × Pairwise R as'

  pub Pairwise-filter :
      (R : A → A → Type 0) (p : A → Bool) (as' : List A)
      → Pairwise R as'
      → Pairwise R (filter p as')
  Pairwise-filter R p [] h = tt
  Pairwise-filter R p (a ∷ as') h = elim (Bool-cases (p a)) [
    | inl kept ↦ rw kept (All-filter (R a) p as' h.0, Pairwise-filter R p as' h.1)
    | inr dropped ↦ rw dropped (Pairwise-filter R p as' h.1)
  ]

  pub AnyOf-imp :
      (P Q : A → Type 0) (as' : List A) → ((a : A) → P a → Q a) → AnyOf P as' → AnyOf Q as'
  AnyOf-imp P Q [] f h = h
  AnyOf-imp P Q (a ∷ as') f (inl p) = inl (f a p)
  AnyOf-imp P Q (a ∷ as') f (inr rest) = inr (AnyOf-imp P Q as' f rest)

  -- What passes the test stays.
  pub AnyOf-filter :
      (P : A → Type 0) (p : A → Bool) (as' : List A)
      → ((a : A) → P a → p a ≡ true)
      → AnyOf P as'
      → AnyOf P (filter p as')
  AnyOf-filter P p [] f h = h
  AnyOf-filter P p (a ∷ as') f (inl q) = rw (f a q) (inl q)
  AnyOf-filter P p (a ∷ as') f (inr rest) = elim (Bool-cases (p a)) [
    | inl kept ↦ rw kept (inr (AnyOf-filter P p as' f rest))
    | inr dropped ↦ rw dropped (AnyOf-filter P p as' f rest)
  ]

  module _ (first : A → A → Bool) where
    -- A symmetric relation does not depend on the order.
    module _ (R : A → A → Type 0) (symmetric : (a b : A) → R a b → R b a) where
      Pairwise-insert_by :
          (a : A) (bs : List A) → All (R a) bs → Pairwise R bs → Pairwise R (insert_by first a bs)
      Pairwise-insert_by a [] h k = (tt, tt)
      Pairwise-insert_by a (b ∷ bs) h k = elim (Bool-cases (first b a)) [
        | inl before ↦ rw before (
          All-insert_by first (R b) a bs (symmetric a b h.0) k.0,
          Pairwise-insert_by a bs h.1 k.1,
        )
        | inr after ↦ rw after (h, k)
      ]

      pub Pairwise-sort_by : (as' : List A) → Pairwise R as' → Pairwise R (sort_by first as')
      unfolding sort_by
      Pairwise-sort_by [] h = tt
      Pairwise-sort_by (a ∷ as') h =
          Pairwise-insert_by a (sort_by first as') (All-sort_by first (R a) as' h.0)
            (Pairwise-sort_by as' h.1)

    -- No element has to come before one that stands in front of it.
    abbrev pub InOrder : List A → Type 0
    InOrder as' = Pairwise (λ a b. first b a ≡ false) as'

    module _ (asym : (a b : A) → first a b ≡ true → first b a ≡ false)
        (trans : (a b c : A) → first b a ≡ false → first c b ≡ false → first c a ≡ false) where
      InOrder-insert_by : (a : A) (bs : List A) → InOrder bs → InOrder (insert_by first a bs)
      InOrder-insert_by a [] h = (tt, tt)
      InOrder-insert_by a (b ∷ bs) h = elim (Bool-cases (first b a)) [
        | inl before ↦ rw before (
          All-insert_by first (λ c. first c b ≡ false) a bs (asym b a before) h.0,
          InOrder-insert_by a bs h.1,
        )
        | inr after ↦
            rw after
              ((after, All-imp (λ c. first c b ≡ false) _ bs (λ c k. trans a b c after k) h.0), h)
      ]

      pub InOrder-sort_by : (as' : List A) → InOrder (sort_by first as')
      unfolding sort_by
      InOrder-sort_by [] = tt
      InOrder-sort_by (a ∷ as') = InOrder-insert_by a (sort_by first as') (InOrder-sort_by as')
