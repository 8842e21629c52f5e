-- ===== src/Topology/Upstream.antt =====
-- `find_upstream_roots`: from a service against the calls, to the services that nobody calls.
pub mod Roots
use becertain.Prelude.{
  ℕ, zero, suc, ◌+◌, String, List, [], ◌∷◌, ◌++◌, Option, none, some, if◌then◌else◌, contains,
  length,
}
use becertain.Topology.Graph.{Adjacency, DependencyGraph, neighbors, targets}

-- The variables of the loop.
pub record RootState : Type 0 where
  pub roots : List String
  pub seen : List String
  pub queue : List String

-- The rest of a turn, for a node that was not seen before, by its callers.
abbrev pub follow : String → List String → RootState → RootState
follow node [] s = record s { roots = s.roots ++ (node ∷ []); seen = node ∷ s.seen }
follow node (caller ∷ callers) s = record s {
  seen = node ∷ s.seen;
  queue = s.queue ++ (caller ∷ callers);
}

module _ (g : Adjacency) where
  abbrev pub visit_root : String → RootState → RootState
  visit_root node s = if contains node s.seen then s else follow node (neighbors node g) s

  unfoldable pub roots_loop : ℕ → RootState → Option (List String)
  roots_loop zero s = none
  roots_loop (suc fuel) s = elim s.queue [
    | [] ↦ some s.roots
    | node ∷ rest ↦ roots_loop fuel (visit_root node (record s { queue = rest }))
  ]

abbrev pub root_start : String → RootState
root_start service = record { roots = []; seen = []; queue = service ∷ [] }

-- Every set of callers is queued once at most, so the fuel is enough.
unfoldable pub find_upstream_roots : String → DependencyGraph → Option (List String)
find_upstream_roots service g =
    roots_loop g.reverse (length (targets g.reverse) + 2) (root_start service)
