-- ===== src/Topology/Blast/Weight.antt =====
-- The measure of the loop of `blast_radius`.
use becertain.Prelude.{
  ℕ, ◌+◌, ◌≤◌, String, true, false, not, List, [], ◌∷◌, ◌++◌, str_eq, contains, filter, length,
  length-append, ◌≡◌, sym, refl, arith, eq_iff, inl, inr, Bool-cases,
}
use mathlib.Core.Path.{subst}
use becertain.Topology.Graph.{Adjacency, neighbors, targets, BlastState, push, visit}

abbrev pub unseen : List String → List String → ℕ
unseen seen names = length (filter (λ n. not (contains n seen)) names)

unseen_more : (n : String) (seen names : List String) → unseen (n ∷ seen) names ≤ unseen seen names
unseen_more n seen [] = omega arith
unseen_more n seen (m ∷ names) = ground (arith, unseen_more n seen names)

unseen_fewer :
    (n : String) (seen names : List String)
    → contains n names ≡ true
    → contains n seen ≡ false
    → unseen (n ∷ seen) names + 1 ≤ unseen seen names
unseen_fewer n seen [] h new = absurd (ground arith)
unseen_fewer n seen (m ∷ names) h new = elim (Bool-cases (str_eq m n)) [
  | inl same ↦ ground (arith, unseen_more n seen names, eq_iff m n, eq_iff n m)
  | inr other ↦
      ground (arith, unseen_fewer n seen names, unseen_more n seen names, eq_iff m n, eq_iff n m)
]

contains-append_left :
    (n : String) (xs ys : List String) → contains n xs ≡ true → contains n (xs ++ ys) ≡ true
contains-append_left n [] ys h = absurd (ground arith)
contains-append_left n (x ∷ xs) ys h = ground (arith, contains-append_left n xs ys)

contains-append_right :
    (n : String) (xs ys : List String) → contains n ys ≡ true → contains n (xs ++ ys) ≡ true
contains-append_right n [] ys h = h
contains-append_right n (x ∷ xs) ys h = ground (arith, contains-append_right n xs ys)

pub neighbors-targets :
    (v n : String) (g : Adjacency)
    → contains n (neighbors v g) ≡ true
    → contains n (targets g) ≡ true
neighbors-targets v n [] h = h
neighbors-targets v n ((m, ms) ∷ g) h = elim (Bool-cases (str_eq m v)) [
  | inl same ↦ contains-append_left n ms (targets g) (rw same at h)
  | inr other ↦ contains-append_right n ms (targets g) (neighbors-targets v n g (rw other at h))
]

module _ (g : Adjacency) where
  abbrev pub weight : BlastState → ℕ
  weight s = length s.queue + unseen s.seen (targets g)

  pub weight-visit :
      (d : ℕ) (ns : List String) (s : BlastState)
      → ((w : String) → contains w ns ≡ true → contains w (targets g) ≡ true)
      → weight (visit d ns s) ≤ weight s
  weight-visit d [] s h = omega arith
  weight-visit d (n ∷ ns) s h = elim (Bool-cases (contains n s.seen)) [
    | inl old ↦
        let same : visit d (n ∷ ns) s ≡ visit d ns s = rw old refl in
        subst (λ t. weight t ≤ weight s) (sym same)
          (weight-visit d ns s (λ w k. h w (ground arith)))
    | inr new ↦
        let next = weight-visit d ns (push n d s) (λ w k. h w (ground arith)) in
        let pushed : visit d (n ∷ ns) s ≡ visit d ns (push n d s) = rw new refl in
        subst (λ t. weight t ≤ weight s) (sym pushed)
          (omega (
            arith,
            next,
            unseen_fewer n s.seen (targets g) (h n (ground (arith, eq_iff n n))) new,
            length-append s.queue ((n, d + 1) ∷ []),
          ))
  ]
