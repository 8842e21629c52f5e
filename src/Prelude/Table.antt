-- ===== src/Prelude/Table.antt =====
-- A table of rows with a numeric primary key: the session operations that the services use
-- (`get`, `add`, a write to a loaded row, `delete`), with their lookup laws.
use Prim.Native.Nat.{ℕ}
use mathlib.Core.Path.{◌≡◌, refl, sym, subst, ◌∙◌}
use mathlib.Core.Logic.{◌≢◌, inl, inr}
use mathlib.Core.Bool.{Bool, not}
use mathlib.Core.Option.{Option, none, some}
use mathlib.Core.List.{List, [], ◌∷◌, ◌++◌, map}
use native.Mathlib.Omega.{arith}
use becertain.Prelude.Tests.{◌==◌, Bool-cases, if◌then◌else◌}
use becertain.Prelude.Lists.{filter, All, All-imp, All-append, All-filter}

pub record Keyed (R : Type 0) : Type 0 where
  pub key : R → ℕ

module _ {R : Type 0} ⦃k : Keyed R⦄ where
  -- `db.get(R, i)`
  abbrev pub get : ℕ → List R → Option R
  get i [] = none
  get i (r ∷ rs) = if k.key r == i then some r else get i rs

  -- The assignments to the fields of a loaded row, the key left alone.
  abbrev pub put : R → List R → List R
  put r [] = []
  put r (x ∷ rs) = if k.key x == k.key r then r ∷ rs else x ∷ put r rs

  -- `db.add(r)`
  abbrev pub add : R → List R → List R
  add r rs = rs ++ (r ∷ [])

  -- `db.delete(r)` for the row of key `i`
  abbrev pub erase : ℕ → List R → List R
  erase i rs = filter (λ r. not (k.key r == i)) rs

  pub get-put_self :
      (r : R) (rs : List R) → get (k.key r) rs ≢ none → get (k.key r) (put r rs) ≡ some r
  get-put_self r [] h = absurd (h refl)
  get-put_self r (x ∷ rs) h = ground (arith, get-put_self r rs)

  pub get-put_ne : (i : ℕ) (r : R) (rs : List R) → k.key r ≢ i → get i (put r rs) ≡ get i rs
  get-put_ne i r [] h = refl
  get-put_ne i r (x ∷ rs) h = ground (arith, get-put_ne i r rs h)

  -- A write to a loaded row is seen under its key alone.
  pub get-put :
      (i : ℕ) (r : R) (rs : List R)
      → get (k.key r) rs ≢ none
      → get i (put r rs) ≡ (if k.key r == i then some r else get i rs)
  get-put i r [] h = absurd (h refl)
  get-put i r (x ∷ rs) h = ground (arith, get-put i r rs)

  pub get-add :
      (i : ℕ) (r : R) (rs : List R)
      → get i (add r rs)
        ≡ elim (get i rs) [ none ↦ if k.key r == i then some r else none | some x ↦ some x ]
  get-add i r [] = refl
  get-add i r (x ∷ rs) = ground (arith, get-add i r rs)

  pub get-erase_self : (i : ℕ) (rs : List R) → get i (erase i rs) ≡ none
  get-erase_self i [] = refl
  get-erase_self i (x ∷ rs) = ground (arith, get-erase_self i rs)

  pub get-erase_ne : (i j : ℕ) (rs : List R) → i ≢ j → get i (erase j rs) ≡ get i rs
  get-erase_ne i j [] h = refl
  get-erase_ne i j (x ∷ rs) h = ground (arith, get-erase_ne i j rs h)

  pub key-get : (i : ℕ) (r : R) (rs : List R) → get i rs ≡ some r → k.key r ≡ i
  key-get i r [] h = cc
  key-get i r (x ∷ rs) h = ground (arith, key-get i r rs)

  -- An update of every row that keeps the keys.
  pub get-map :
      (f : R → R)
      → ((r : R) → k.key (f r) ≡ k.key r)
      → (i : ℕ) (rs : List R)
      → get i (map f rs) ≡ elim (get i rs) [ none ↦ none | some r ↦ some (f r) ]
  get-map f same i [] = refl
  get-map f same i (x ∷ rs) = ground (arith, same x, get-map f same i rs)

  -- No two rows have one key.
  abbrev pub IsKeyed : List R → Type 0
  IsKeyed [] = Unit
  IsKeyed (r ∷ rs) = All (λ x. k.key x ≢ k.key r) rs × IsKeyed rs

  All-put : (P : R → Type 0) (r : R) (rs : List R) → All P rs → P r → All P (put r rs)
  All-put P r [] h p = tt
  All-put P r (x ∷ rs) h p = elim (Bool-cases (k.key x == k.key r)) [
    | inl here ↦ rw here (p, h.1)
    | inr later ↦ rw later (h.0, All-put P r rs h.1 p)
  ]

  pub IsKeyed-put : (r : R) (rs : List R) → IsKeyed rs → IsKeyed (put r rs)
  IsKeyed-put r [] u = tt
  IsKeyed-put r (x ∷ rs) u = elim (Bool-cases (k.key x == k.key r)) [
    | inl here ↦ rw here (All-imp _ _ rs (λ y h. ground arith) u.0, u.1)
    | inr later ↦ rw later (All-put _ r rs u.0 (ground arith), IsKeyed-put r rs u.1)
  ]

  pub IsKeyed-add :
      (r : R) (rs : List R) → IsKeyed rs → get (k.key r) rs ≡ none → IsKeyed (add r rs)
  IsKeyed-add r [] u free = (tt, tt)
  IsKeyed-add r (x ∷ rs) u free = elim (Bool-cases (k.key x == k.key r)) [
    | inl here ↦ absurd (ground arith)
    | inr later ↦
        (All-append _ rs (r ∷ []) u.0 (ground arith, tt), IsKeyed-add r rs u.1 (rw later at free))
  ]

  pub IsKeyed-map :
      (f : R → R)
      → ((r : R) → k.key (f r) ≡ k.key r)
      → (rs : List R) → IsKeyed rs
      → IsKeyed (map f rs)
  IsKeyed-map f same [] u = tt
  IsKeyed-map f same (x ∷ rs) u = (others rs u.0, IsKeyed-map f same rs u.1)
    where
      others :
          (ys : List R)
          → All (λ y. k.key y ≢ k.key x) ys
          → All (λ y. k.key y ≢ k.key (f x)) (map f ys)
      others [] h = tt
      others (y ∷ ys) h = (λ e. h.0 (sym (same y) ∙ e ∙ same x), others ys h.1)

  pub IsKeyed-filter : (p : R → Bool) (rs : List R) → IsKeyed rs → IsKeyed (filter p rs)
  IsKeyed-filter p [] u = tt
  IsKeyed-filter p (x ∷ rs) u = elim (Bool-cases (p x)) [
    | inl kept ↦ rw kept (All-filter _ p rs u.0, IsKeyed-filter p rs u.1)
    | inr dropped ↦ rw dropped (IsKeyed-filter p rs u.1)
  ]

  -- A write changes what holds of its own row, and what holds of the rows of other keys.
  pub All-put_ne :
      (P Q : R → Type 0) (r : R) (rs : List R)
      → IsKeyed rs
      → ((x : R) → k.key x ≢ k.key r → P x → Q x)
      → Q r
      → All P rs
      → All Q (put r rs)
  All-put_ne P Q r [] u f q h = tt
  All-put_ne P Q r (x ∷ rs) u f q h = elim (Bool-cases (k.key x == k.key r)) [
    | inl here ↦ rw here (q, others rs u.0 (ground arith) h.1)
    | inr later ↦ rw later (f x (ground arith) h.0, All-put_ne P Q r rs u.1 f q h.1)
  ]
    where
      others :
          (ys : List R) → All (λ y. k.key y ≢ k.key x) ys → k.key x ≡ k.key r → All P ys → All Q ys
      others [] d e h = tt
      others (y ∷ ys) d e h = (f y (λ same. d.0 (same ∙ sym e)) h.0, others ys d.1 e h.1)

  pub All-get {κ} :
      (P : R → Type κ) (j : ℕ) (rows : List R) (row : R)
      → All P rows
      → get j rows ≡ some row
      → P row
  All-get P j [] row h e = cc
  All-get P j (r ∷ rs) row h e = elim (Bool-cases (k.key r == j)) [
    | inl here ↦ let same : r ≡ row = ground arith in subst P same h.0
    | inr later ↦ All-get P j rs row h.1 (ground arith)
  ]
