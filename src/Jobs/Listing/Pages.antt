-- ===== src/Jobs/Listing/Pages.antt =====
-- Pagination: a page, the rows behind its cursor, and what a client collects that follows the
-- cursors.
use mathlib.Core.Path.{subst}
use mathlib.Core.Option.{some-injective}
use native.Mathlib.Numerals.{add-one}
use becertain.Prelude.{
  ℕ, zero, suc, ◌+◌, ◌<◌, ◌≡◌, refl, sym, ap, ◌∙◌, Option, none, some, List, [], ◌∷◌, Bool, true,
  false, inl, inr, arith, filter, All, All-filter, Bool-cases, Option-cases, take, drop, length,
}
use becertain.Jobs.Rows.{JobStatus, RcaJob, Db, Caller}
use becertain.Jobs.Listing.{is_after, position, last_of, is_listed, is_beyond, select_rows}
use becertain.Jobs.Listing.Order.{
  HasUniqueIds, HasUniqueIds-filter, IsDescending, sort-IsDescending, sort-filter,
}

filter-eq_self {ℓ} :
    {A : Type ℓ} (p : A → Bool) (xs : List A) → All (λ x. p x ≡ true) xs → filter p xs ≡ xs
filter-eq_self p [] h = refl
filter-eq_self p (x ∷ xs) h = rw h.0 (ap (◌∷◌ x) (filter-eq_self p xs h.1))

All-last_of {ℓ κ} :
    {A : Type ℓ} (P : A → Type κ) (n : ℕ) (xs : List A) (c : A)
    → All P xs
    → last_of (take n xs) ≡ some c
    → P c
All-last_of P zero xs c h e = cc
All-last_of P (suc n) [] c h e = cc
All-last_of P (suc n) (x ∷ xs) c h e = elim (Option-cases (last_of (take n xs))) [
  | inl end ↦ let same : x ≡ c = ground arith in rw (← same) h.0
  | inr (y, more) ↦ let same : y ≡ c = ground arith in All-last_of P n xs c h.1 (rw same at more)
]

pub last_of-take {ℓ} :
    {A : Type ℓ} (n : ℕ) (xs : List A)
    → 0 < n
    → 0 < length xs
    → (c : A) × (last_of (take n xs) ≡ some c)
last_of-take n [] h k = elim k [ ]
last_of-take zero (x ∷ xs) h k = elim h [ ]
last_of-take (suc n) (x ∷ xs) h k = elim (Option-cases (last_of (take n xs))) [
  | inl end ↦ (x, rw end)
  | inr (y, more) ↦ (y, rw more)
]

pub take-take {ℓ} : {A : Type ℓ} (n : ℕ) (xs : List A) → take n (take (n + 1) xs) ≡ take n xs
take-take zero xs = refl
take-take (suc n) [] = rw add-one
take-take (suc n) (x ∷ xs) =
    let ih : take n (take (suc n) xs) ≡ take n xs = rw add-one at (take-take n xs) in
    rw add-one (ap (◌∷◌ x) ih)

module _ {J : Type 0} where
  not-is_after_self : (c : RcaJob J) → is_after (position c) c ≡ false
  not-is_after_self c = ground arith

  is_after_asymm :
      (x c : RcaJob J) → is_after (position x) c ≡ true → is_after (position c) x ≡ false
  is_after_asymm x c h = ground arith

  filter-drop_head :
      (x : RcaJob J) (xs : List (RcaJob J))
      → IsDescending (x ∷ xs)
      → filter (is_after (position x)) (x ∷ xs) ≡ xs
  filter-drop_head x xs d = rw (not-is_after_self x) (filter-eq_self _ xs d.0)

  -- Behind the last row of a page stand exactly the rows that the page left over.
  filter-drop :
      (n : ℕ) (rows : List (RcaJob J)) (c : RcaJob J)
      → IsDescending rows
      → last_of (take (suc n) rows) ≡ some c
      → filter (is_after (position c)) rows ≡ drop (suc n) rows
  filter-drop n [] c d e = cc
  filter-drop zero (x ∷ xs) c d e =
      subst (λ y. filter (is_after (position y)) (x ∷ xs) ≡ xs) (some-injective _ _ e)
        (filter-drop_head x xs d)
  filter-drop (suc n) (x ∷ []) c d e =
      subst (λ y. filter (is_after (position y)) (x ∷ []) ≡ []) (some-injective _ _ e)
        (filter-drop_head x [] d)
  filter-drop (suc n) (x ∷ y ∷ ys) c d e =
      let (tail, found) = last_of-take (suc n) (y ∷ ys) (omega arith) (omega arith) in
      let same : tail ≡ c = some-injective _ _ (rw (found) at e) in
      let found_c : last_of (take (suc n) (y ∷ ys)) ≡ some c = found ∙ ap some same in
      let after =
        All-last_of (λ z. is_after (position x) z ≡ true) (suc n) (y ∷ ys) c d.0 found_c in
      rw (is_after_asymm x c after) (filter-drop n (y ∷ ys) c d.1 found_c)

  IsDescending-filter :
      (p : RcaJob J → Bool) (rows : List (RcaJob J))
      → IsDescending rows
      → IsDescending (filter p rows)
  IsDescending-filter p [] d = tt
  IsDescending-filter p (x ∷ xs) d = elim (Bool-cases (p x)) [
    | inl kept ↦ rw kept (All-filter _ p xs d.0, IsDescending-filter p xs d.1)
    | inr dropped ↦ rw dropped (IsDescending-filter p xs d.1)
  ]

  filter_again :
      (b : ℕ × ℕ) (c : RcaJob J) (rows : List (RcaJob J))
      → is_after b c ≡ true
      → filter (is_after (position c)) (filter (is_after b) rows)
        ≡ filter (is_after (position c)) rows
  filter_again b c [] h = refl
  filter_again b c (x ∷ xs) h = ground (arith, filter_again b c xs h)

  All-filter_self :
      (p : RcaJob J → Bool) (rows : List (RcaJob J)) → All (λ x. p x ≡ true) (filter p rows)
  All-filter_self p [] = tt
  All-filter_self p (x ∷ xs) = elim (Bool-cases (p x)) [
    | inl kept ↦ rw kept (kept, All-filter_self p xs)
    | inr dropped ↦ rw dropped (All-filter_self p xs)
  ]

  pub filter_all : (rows : List (RcaJob J)) → filter (is_beyond none) rows ≡ rows
  filter_all rows = filter-eq_self _ rows (all rows)
    where
      all : (xs : List (RcaJob J)) → All (λ x. is_beyond none x ≡ true) xs
      all [] = tt
      all (x ∷ xs) = (refl, all xs)

  module _ (ctx : Caller) (wanted : Option JobStatus) (db : Db J) where
    abbrev listed : List (RcaJob J)
    listed = filter (is_listed ctx wanted) db.jobs

    -- The query with a cursor is the query without one, less what stands before the cursor.
    select_rows_beyond :
        (c : ℕ × ℕ)
        → select_rows ctx wanted (some c) db ≡ filter (is_after c) (select_rows ctx wanted none db)
    unfolding select_rows
    select_rows_beyond c = rw (filter_all listed) (sort-filter c listed)

    pub select_rows-IsDescending :
        HasUniqueIds db.jobs
        → (cursor : Option (ℕ × ℕ)) → IsDescending (select_rows ctx wanted cursor db)
    unfolding select_rows
    select_rows-IsDescending u cursor =
        sort-IsDescending _ (HasUniqueIds-filter _ _ (HasUniqueIds-filter _ db.jobs u))

    -- Behind the cursor of a page the query finds exactly what the page left over.
    select_rows_next :
        HasUniqueIds db.jobs
        → (cursor : Option (ℕ × ℕ)) (n : ℕ) (c : RcaJob J)
        → last_of (take (suc n) (select_rows ctx wanted cursor db)) ≡ some c
        → select_rows ctx wanted (some (position c)) db
          ≡ drop (suc n) (select_rows ctx wanted cursor db)
    select_rows_next u none n c e =
        select_rows_beyond (position c)
        ∙ filter-drop n (select_rows ctx wanted none db) c (select_rows-IsDescending u none) e
    select_rows_next u (some b) n c e =
        let rest = select_rows_beyond b in
        let after =
          All-last_of (λ z. is_after b z ≡ true) (suc n) _ c (All-filter_self (is_after b) _)
            (rw rest at e) in
        select_rows_beyond (position c)
        ∙ sym (filter_again b c (select_rows ctx wanted none db) after)
        ∙ ap (filter (is_after (position c))) (sym rest)
        ∙ filter-drop n (select_rows ctx wanted (some b) db) c (select_rows-IsDescending u (some b))
            e

    -- The same, for a page of any size but zero.
    pub select_rows_rest :
        HasUniqueIds db.jobs
        → (cursor : Option (ℕ × ℕ)) (n : ℕ) (c : RcaJob J) → 0 < n
        → last_of (take n (select_rows ctx wanted cursor db)) ≡ some c
        → select_rows ctx wanted (some (position c)) db ≡ drop n (select_rows ctx wanted cursor db)
    select_rows_rest u cursor zero c pos e = elim pos [ ]
    select_rows_rest u cursor (suc n) c pos e = select_rows_next u cursor n c e
