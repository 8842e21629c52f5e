-- ===== src/Topology/Pending.antt =====
-- The measure of the searches that mark a node when they take it from the queue.
use mathlib.Core.Path.{subst}
use becertain.Prelude.{
  ℕ, ◌+◌, ◌≤◌, String, false, ◌||◌, List, [], ◌∷◌, ◌++◌, if◌then◌else◌, str_eq, contains, length,
  length-append, ◌≡◌, sym, refl, arith, eq_iff, inl, inr, Bool-cases,
}
use becertain.Topology.Graph.{Adjacency, neighbors, targets}

pub contains-append :
    (n : String) (xs ys : List String) → contains n (xs ++ ys) ≡ (contains n xs || contains n ys)
contains-append n [] ys = refl
contains-append n (x ∷ xs) ys = ground (arith, contains-append n xs ys)

-- The elements of the sets that were not yet followed.
abbrev pub pending : List String → Adjacency → ℕ
pending seen [] = 0
pending seen ((n, ns) ∷ g) = (if contains n seen then 0 else length ns) + pending seen g

pub pending_fewer :
    (n : String) (seen : List String) (g : Adjacency) → pending (n ∷ seen) g ≤ pending seen g
pending_fewer n seen [] = omega arith
pending_fewer n seen ((m, ms) ∷ g) = ground (arith, pending_fewer n seen g)

pub pending_followed :
    (n : String) (seen : List String) (g : Adjacency)
    → contains n seen ≡ false
    → pending (n ∷ seen) g + length (neighbors n g) ≤ pending seen g
pending_followed n seen [] new = omega arith
pending_followed n seen ((m, ms) ∷ g) new = elim (Bool-cases (str_eq m n)) [
  | inl same ↦
      let named = (eq_iff m n).0 same in
      let new' = subst (λ x. contains x seen ≡ false) (sym named) new in
      ground (arith, pending_fewer n seen g, eq_iff n m)
  | inr other ↦ ground (arith, pending_followed n seen g, eq_iff m n, eq_iff n m)
]

pub pending-targets : (g : Adjacency) → pending [] g ≡ length (targets g)
pending-targets [] = refl
pending-targets ((n, ns) ∷ g) = omega (arith, pending-targets g, length-append ns (targets g))
