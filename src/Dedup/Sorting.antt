-- ===== src/Dedup/Sorting.antt =====
-- The sort by time is a permutation into ascending order.
use mathlib.Core.List.{Perm}
use mathlib.Core.List.Perm
use becertain.Prelude.{true, false, List, [], ◌∷◌, ◌≡◌, Bool-cases, inl, inr}
use becertain.Floats.{Floats}
use becertain.Dedup.{MetricAnomaly, insert, sort_anomalies}

module _ {F A : Type 0} (fl : Floats F) where
  Perm-insert :
      (a : MetricAnomaly F A) (as' : List (MetricAnomaly F A)) → Perm (insert fl a as') (a ∷ as')
  Perm-insert a [] = Perm.rfl
  Perm-insert a (b ∷ bs) = elim (Bool-cases (fl.lt b.timestamp a.timestamp)) [
    | inl before ↦ rw before (Perm.trans (Perm.cons b (Perm-insert a bs)) (Perm.swap a b bs))
    | inr after ↦ rw after (Perm.rfl)
  ]

  pub Perm-sort : (as' : List (MetricAnomaly F A)) → Perm (sort_anomalies fl as') as'
  unfolding sort_anomalies
  Perm-sort [] = Perm.rfl
  Perm-sort (a ∷ as') =
      Perm.trans (Perm-insert a (sort_anomalies fl as')) (Perm.cons a (Perm-sort as'))

  -- No anomaly is later than the next one.
  abbrev pub IsAscending : List (MetricAnomaly F A) → Type 0
  IsAscending [] = Unit
  IsAscending (a ∷ []) = Unit
  IsAscending (a ∷ b ∷ bs) = (fl.lt b.timestamp a.timestamp ≡ false) × IsAscending (b ∷ bs)

  module _ (asym : (a b : F) → fl.lt a b ≡ true → fl.lt b a ≡ false) where
    IsAscending-insert :
        (a : MetricAnomaly F A) (bs : List (MetricAnomaly F A))
        → IsAscending bs
        → IsAscending (insert fl a bs)
    IsAscending-insert a [] h = tt
    IsAscending-insert a (b ∷ []) h = elim (Bool-cases (fl.lt b.timestamp a.timestamp)) [
      | inl before ↦ rw before (asym b.timestamp a.timestamp before, tt)
      | inr after ↦ rw after (after, tt)
    ]
    IsAscending-insert a (b ∷ c ∷ cs) h = elim (Bool-cases (fl.lt b.timestamp a.timestamp)) [
      | inl before ↦ elim (Bool-cases (fl.lt c.timestamp a.timestamp)) [
        | inl first ↦
            let rest = IsAscending-insert a (c ∷ cs) h.1 in
            rw (before, first) (h.0, rw first at rest)
        | inr last ↦ rw (before, last) (asym b.timestamp a.timestamp before, (last, h.1))
      ]
      | inr after ↦ rw after (after, h)
    ]

    -- The sort leaves no anomaly later than the next one, where of two different times not both are
    -- before the other.
    pub IsAscending-sort : (as' : List (MetricAnomaly F A)) → IsAscending (sort_anomalies fl as')
    unfolding sort_anomalies
    IsAscending-sort [] = tt
    IsAscending-sort (a ∷ as') = IsAscending-insert a (sort_anomalies fl as') (IsAscending-sort as')
