-- ===== src/Store/Granger/Distinct.antt =====
-- store/granger.py: a pair of metrics has one result, in the dict and in the sorted list.
use mathlib.Core.Path.{subst}
use becertain.Prelude.{
  String, List, [], ◌∷◌, none, str_eq, eq_iff, arith, ◌≡◌, refl, sym, ◌≢◌, inl, inr, Bool-cases,
  Option-cases, All,
}
use becertain.Floats.{Floats}
use becertain.Store.Client.{lookup, assign}
use becertain.Store.Client.Bounds.{HasUniqueKeys, HasUniqueKeys-assign}
use becertain.Store.Granger.{
  GrangerRecord, Stored, pair_key, keep_stronger, merge, insert_weaker, by_strength, index_records,
}

module _ {F : Type 0} where
  -- The results are of different pairs.
  abbrev pub HasDistinctPairs : List (GrangerRecord F) → Type 0
  HasDistinctPairs [] = Unit
  HasDistinctPairs (r ∷ rs) = All (λ x. pair_key x ≢ pair_key r) rs × HasDistinctPairs rs

  -- The key of a result is its pair.
  abbrev AreKeyed : Stored F → Type 0
  AreKeyed [] = Unit
  AreKeyed ((key, r) ∷ stored) = (key ≡ pair_key r) × AreKeyed stored

  -- One result for each key, which is its pair.
  abbrev IsIndex : Stored F → Type 0
  IsIndex stored = HasUniqueKeys stored × AreKeyed stored

  AreKeyed-assign :
      (r : GrangerRecord F) (stored : Stored F)
      → AreKeyed stored
      → AreKeyed (assign (pair_key r) r stored)
  AreKeyed-assign r [] h = (refl, tt)
  AreKeyed-assign r ((key, x) ∷ stored) h = elim (Bool-cases (str_eq key (pair_key r))) [
    | inl same ↦ rw same ((eq_iff key (pair_key r)).0 same, h.1)
    | inr other ↦ rw other (h.0, AreKeyed-assign r stored h.1)
  ]

  IsIndex-assign :
      (r : GrangerRecord F) (stored : Stored F)
      → IsIndex stored
      → IsIndex (assign (pair_key r) r stored)
  IsIndex-assign r stored (u, h) =
      (HasUniqueKeys-assign (pair_key r) r stored u, AreKeyed-assign r stored h)

module _ {F : Type 0} (fl : Floats F) where
  IsIndex-keep_stronger :
      (r : GrangerRecord F) (stored : Stored F)
      → IsIndex stored
      → IsIndex (keep_stronger fl r stored)
  IsIndex-keep_stronger r stored h = elim (Option-cases (lookup (pair_key r) stored)) [
    | inl fresh ↦ rw (keep_stronger, fresh) (IsIndex-assign r stored h)
    | inr (existing, found) ↦ elim (Bool-cases (fl.lt existing.strength r.strength)) [
      | inl stronger ↦ rw (keep_stronger, found, stronger) (IsIndex-assign r stored h)
      | inr weaker ↦ rw (keep_stronger, found, weaker) h
    ]
  ]

  IsIndex-merge :
      (fresh : List (GrangerRecord F)) (stored : Stored F)
      → IsIndex stored
      → IsIndex (merge fl fresh stored)
  unfolding merge
  IsIndex-merge [] stored h = h
  IsIndex-merge (r ∷ fresh) stored h = IsIndex-merge fresh _ (IsIndex-keep_stronger r stored h)

  IsIndex-index_records :
      (rs : List (GrangerRecord F)) (stored : Stored F)
      → IsIndex stored
      → IsIndex (index_records fl rs stored)
  IsIndex-index_records [] stored h = h
  IsIndex-index_records (r ∷ rs) stored h =
      IsIndex-index_records rs (assign (pair_key r) r stored) (IsIndex-assign r stored h)

  All-insert_weaker :
      (P : GrangerRecord F → Type 0) (r : GrangerRecord F) (rs : List (GrangerRecord F))
      → P r
      → All P rs
      → All P (insert_weaker fl r rs)
  All-insert_weaker P r [] p h = (p, tt)
  All-insert_weaker P r (x ∷ xs) p h = elim (Bool-cases (fl.lt r.strength x.strength)) [
    | inl weaker ↦ rw weaker (h.0, All-insert_weaker P r xs p h.1)
    | inr first ↦ rw first (p, h)
  ]

  HasDistinctPairs-insert_weaker :
      (r : GrangerRecord F) (rs : List (GrangerRecord F))
      → All (λ x. pair_key x ≢ pair_key r) rs
      → HasDistinctPairs rs
      → HasDistinctPairs (insert_weaker fl r rs)
  HasDistinctPairs-insert_weaker r [] a d = (tt, tt)
  HasDistinctPairs-insert_weaker r (x ∷ xs) a d = elim (Bool-cases (fl.lt r.strength x.strength)) [
    | inl weaker ↦ rw weaker (
      All-insert_weaker _ r xs (λ e. a.0 (sym e)) d.0,
      HasDistinctPairs-insert_weaker r xs a.1 d.1,
    )
    | inr first ↦ rw first (a, d)
  ]

  apart :
      (key : String) (stored : Stored F)
      → AreKeyed stored
      → lookup key stored ≡ none
      → All (λ x. pair_key x ≢ key) (by_strength fl stored)
  unfolding by_strength
  apart key [] h e = tt
  apart key ((k, r) ∷ stored) h e = elim (Bool-cases (str_eq k key)) [
    | inl same ↦ absurd (ground arith)
    | inr other ↦
        All-insert_weaker _ r (by_strength fl stored)
          (λ named. absurd (ground (arith, eq_iff k key, h.0)))
          (apart key stored h.1 (ground arith))
  ]

  HasDistinctPairs-by_strength :
      (stored : Stored F) → IsIndex stored → HasDistinctPairs (by_strength fl stored)
  unfolding by_strength
  HasDistinctPairs-by_strength [] i = tt
  HasDistinctPairs-by_strength ((key, r) ∷ stored) (u, h) =
      HasDistinctPairs-insert_weaker r (by_strength fl stored)
        (subst (λ k. All (λ x. pair_key x ≢ k) (by_strength fl stored)) h.0
          (apart key stored h.1 u.0))
        (HasDistinctPairs-by_strength stored (u.1, h.1))

  pub HasDistinctPairs-merge :
      (cached fresh : List (GrangerRecord F))
      → HasDistinctPairs (by_strength fl (merge fl fresh (index_records fl cached [])))
  HasDistinctPairs-merge cached fresh =
      HasDistinctPairs-by_strength _
        (IsIndex-merge fresh _ (IsIndex-index_records cached [] (tt, tt)))
