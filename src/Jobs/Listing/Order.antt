-- ===== src/Jobs/Listing/Order.antt =====
-- The order of the listing: the sort is strictly descending, and the cursor clause commutes with
-- it.
use becertain.Prelude.{
  ℕ, ◌≡◌, refl, ◌≢◌, List, [], ◌∷◌, Bool, true, false, inl, inr, arith, filter, suc, length, All,
  All-filter, Bool-cases, if◌then◌else◌,
}
use becertain.Jobs.Rows.{RcaJob}
use becertain.Jobs.Listing.{is_after, position, insert, sort_rows}

module _ {J : Type 0} where
  -- No two rows have one id.
  abbrev pub HasUniqueIds : List (RcaJob J) → Type 0
  HasUniqueIds [] = Unit
  HasUniqueIds (r ∷ rs) = All (λ x. x.job_id ≢ r.job_id) rs × HasUniqueIds rs

  -- Each row stands strictly before all that follow it.
  abbrev pub IsDescending : List (RcaJob J) → Type 0
  IsDescending [] = Unit
  IsDescending (r ∷ rs) = All (λ x. is_after (position r) x ≡ true) rs × IsDescending rs

  pub HasUniqueIds-filter :
      (p : RcaJob J → Bool) (rs : List (RcaJob J)) → HasUniqueIds rs → HasUniqueIds (filter p rs)
  HasUniqueIds-filter p [] h = tt
  HasUniqueIds-filter p (r ∷ rs) (h, hs) = elim (Bool-cases (p r)) [
    | inl kept ↦ rw kept (All-filter (λ x. x.job_id ≢ r.job_id) p rs h, HasUniqueIds-filter p rs hs)
    | inr dropped ↦ rw dropped (HasUniqueIds-filter p rs hs)
  ]

  pub All-insert :
      (P : RcaJob J → Type 0) (x : RcaJob J) (ys : List (RcaJob J))
      → P x
      → All P ys
      → All P (insert x ys)
  unfolding insert
  All-insert P x [] h hs = (h, tt)
  All-insert P x (y ∷ ys) h hs = elim (Bool-cases (is_after (position y) x)) [
    | inl before ↦ rw before (hs.0, All-insert P x ys h hs.1)
    | inr first ↦ rw first (h, hs)
  ]

  pub All-sort : (P : RcaJob J → Type 0) (xs : List (RcaJob J)) → All P xs → All P (sort_rows xs)
  unfolding sort_rows
  All-sort P [] h = tt
  All-sort P (x ∷ xs) h = All-insert P x (sort_rows xs) h.0 (All-sort P xs h.1)

  is_after_trans :
      (x y z : RcaJob J)
      → is_after (position x) y ≡ true
      → is_after (position y) z ≡ true
      → is_after (position x) z ≡ true
  is_after_trans x y z p q = ground arith

  All-is_after_trans :
      (x y : RcaJob J) (zs : List (RcaJob J))
      → is_after (position x) y ≡ true
      → All (λ z. is_after (position y) z ≡ true) zs
      → All (λ z. is_after (position x) z ≡ true) zs
  All-is_after_trans x y [] h hs = tt
  All-is_after_trans x y (z ∷ zs) h hs =
      (is_after_trans x y z h hs.0, All-is_after_trans x y zs h hs.1)

  is_after_total :
      (x y : RcaJob J)
      → y.job_id ≢ x.job_id
      → is_after (position y) x ≡ false
      → is_after (position x) y ≡ true
  is_after_total x y ne h = ground arith

  insert-IsDescending :
      (x : RcaJob J) (ys : List (RcaJob J))
      → All (λ y. y.job_id ≢ x.job_id) ys
      → IsDescending ys
      → IsDescending (insert x ys)
  unfolding insert
  insert-IsDescending x [] u d = (tt, tt)
  insert-IsDescending x (y ∷ ys) u d = elim (Bool-cases (is_after (position y) x)) [
    | inl before ↦ rw before (
      All-insert (λ z. is_after (position y) z ≡ true) x ys before d.0,
      insert-IsDescending x ys u.1 d.1,
    )
    | inr first ↦
        let h = is_after_total x y u.0 first in rw first ((h, All-is_after_trans x y ys h d.0), d)
  ]

  -- The sorted rows are in strictly descending order of (created_at, job_id).
  pub sort-IsDescending : (xs : List (RcaJob J)) → HasUniqueIds xs → IsDescending (sort_rows xs)
  unfolding sort_rows
  sort-IsDescending [] u = tt
  sort-IsDescending (x ∷ xs) u =
      insert-IsDescending x (sort_rows xs) (All-sort _ xs u.0) (sort-IsDescending xs u.1)

  filter-insert :
      (c : ℕ × ℕ) (x : RcaJob J) (ys : List (RcaJob J))
      → filter (is_after c) (insert x ys)
        ≡ (if is_after c x then insert x (filter (is_after c) ys) else filter (is_after c) ys)
  unfolding insert
  filter-insert c x [] = refl
  filter-insert c x (y ∷ ys) = ground (arith, filter-insert c x ys)

  -- The cursor clause commutes with the sort.
  pub sort-filter :
      (c : ℕ × ℕ) (xs : List (RcaJob J))
      → sort_rows (filter (is_after c) xs) ≡ filter (is_after c) (sort_rows xs)
  unfolding sort_rows
  sort-filter c [] = refl
  sort-filter c (x ∷ xs) = ground (arith, sort-filter c xs, filter-insert c x (sort_rows xs))

  length-insert : (x : RcaJob J) (ys : List (RcaJob J)) → length (insert x ys) ≡ suc (length ys)
  unfolding insert
  length-insert x [] = refl
  length-insert x (y ∷ ys) = ground (arith, length-insert x ys)

  pub length-sort : (xs : List (RcaJob J)) → length (sort_rows xs) ≡ length xs
  unfolding sort_rows
  length-sort [] = refl
  length-sort (x ∷ xs) = omega (arith, length-insert x (sort_rows xs), length-sort xs)
