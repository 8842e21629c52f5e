-- ===== src/Topology/Route.antt =====
-- `critical_path`: a path of calls from one service to another.
pub mod Paths
mod Search
pub mod Shortest
use becertain.Prelude.{
  ℕ, zero, suc, ◌+◌, String, List, [], ◌∷◌, ◌++◌, map, Option, none, some, if◌then◌else◌, str_eq,
  contains, length,
}
use becertain.Topology.Graph.{Adjacency, DependencyGraph, neighbors, targets}

-- `path[-1]`; the paths of the queue are not empty.
abbrev pub last : String → List String → String
last d [] = d
last d (n ∷ ns) = last n ns

-- The variables of the loop.
pub record PathState : Type 0 where
  pub seen : List String
  pub queue : List (List String)

-- `queue.append(path + [neighbor])`, for each neighbour
abbrev pub extensions : List String → List String → List (List String)
extensions path [] = []
extensions path (n ∷ ns) = (path ++ (n ∷ [])) ∷ extensions path ns

module _ (g : Adjacency) (source target : String) where
  -- The turn for a path that does not end at the target.
  abbrev pub extend_path : List String → PathState → PathState
  extend_path path s =
      let node = last source path in
      if contains node s.seen
      then s
      else record { seen = node ∷ s.seen; queue = s.queue ++ extensions path (neighbors node g) }

  unfoldable pub path_loop : ℕ → PathState → Option (List String)
  path_loop zero s = none
  path_loop (suc fuel) s = elim s.queue [
    | [] ↦ some []
    | path ∷ rest ↦
        let later = path_loop fuel (extend_path path (record s { queue = rest })) in
        if str_eq (last source path) target then some path else later
  ]

abbrev pub path_start : String → PathState
path_start source = record { seen = []; queue = (source ∷ []) ∷ [] }

-- Every set of callees is queued once at most, so the fuel is enough.
unfoldable pub critical_path : String → String → DependencyGraph → Option (List String)
critical_path source target g =
    if str_eq source target
    then some (source ∷ [])
    else path_loop g.forward source target (length (targets g.forward) + 2) (path_start source)
