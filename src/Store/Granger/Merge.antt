-- ===== src/Store/Granger/Merge.antt =====
-- The merge keeps the strongest result of every pair.
use mathlib.Core.List.{Perm, Memᴰ}
use mathlib.Core.List.Perm
use becertain.Prelude.{String, false, List, [], ◌∷◌, none, some, str_eq, ◌≡◌, ◌⊎◌, All}
use becertain.Floats.{Floats}
use becertain.Store.Client.{Store, lookup}
use becertain.Store.Granger.Distinct.{HasDistinctPairs}
use becertain.Store.Granger.{GrangerRecord, Stored, pair_key, merge, index_records}

module _ {F : Type 0} (fl : Floats F) where
  -- The first is not stronger than the second.
  abbrev pub IsWithin : GrangerRecord F → GrangerRecord F → Type 0
  IsWithin a b = fl.lt b.strength a.strength ≡ false

  -- What the dict has under a pair after a merge: a result that was there or came with the merge, no
  -- weaker than any of these.
  pub record IsStrongest (k : String) (fresh : List (GrangerRecord F)) (stored : Stored F)
      (e : GrangerRecord F) : Type 0 where
    pub found : lookup k (merge fl fresh stored) ≡ some e
    pub origin : (lookup k stored ≡ some e) ⊎ Memᴰ e fresh
    pub over_stored : (old : GrangerRecord F) → lookup k stored ≡ some old → IsWithin old e
    pub over_fresh : All (λ r. pair_key r ≡ k → IsWithin r e) fresh

  abbrev pub values_of : Stored F → List (GrangerRecord F)
  values_of [] = []
  values_of ((key, r) ∷ stored) = r ∷ values_of stored

  -- What the merge of cached and fresh results gives under a pair.
  abbrev pub IsMergedAt :
      String → List (GrangerRecord F) → List (GrangerRecord F) → List (GrangerRecord F) → Type 0
  IsMergedAt k cached fresh merged =
      let stored = index_records fl cached [] in
      HasDistinctPairs merged
      × Perm merged (values_of (merge fl fresh stored))
      × (((lookup k (merge fl fresh stored) ≡ none)
            × (lookup k stored ≡ none)
            × All (λ r. str_eq (pair_key r) k ≡ false) fresh)
          ⊎ ((e : GrangerRecord F) × IsStrongest k fresh stored e))
