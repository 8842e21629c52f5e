-- ===== src/Topology/Graph.antt =====
-- `DependencyGraph`: who calls whom. A set of services is a list; the theorems hold for every order
-- of its elements, as Python promises none.
use mathlib.Core.Option
use becertain.Prelude.{
  ℕ, zero, suc, ◌+◌, String, ◌||◌, List, [], ◌∷◌, ◌++◌, Option, none, some, if◌then◌else◌, str_eq,
  contains, length, leb,
}

-- A `defaultdict(set)`.
abbrev pub Adjacency : Type 0
Adjacency = List (String × List String)

-- `d.get(node, set())`
abbrev pub neighbors : String → Adjacency → List String
neighbors node [] = []
neighbors node ((n, ns) ∷ d) = if str_eq n node then ns else neighbors node d

-- `s.add(x)`
abbrev pub add_element : String → List String → List String
add_element x xs = if contains x xs then xs else xs ++ (x ∷ [])

-- `d[node].add(x)`
abbrev pub add_to : String → String → Adjacency → Adjacency
add_to node x [] = (node, x ∷ []) ∷ []
add_to node x ((n, ns) ∷ d) =
    if str_eq n node then (n, add_element x ns) ∷ d else (n, ns) ∷ add_to node x d

pub record DependencyGraph : Type 0 where
  pub forward : Adjacency
  pub reverse : Adjacency

abbrev pub empty_graph : DependencyGraph
empty_graph = record { forward = []; reverse = [] }

unfoldable pub add_call : String → String → DependencyGraph → DependencyGraph
add_call caller callee g =
    if str_eq caller callee || (str_eq caller "" || str_eq callee "") then g else record {
      forward = add_to caller callee g.forward;
      reverse = add_to callee caller g.reverse;
    }

-- All the services that a dict of sets leads to.
abbrev pub targets : Adjacency → List String
targets [] = []
targets ((n, ns) ∷ d) = ns ++ targets d

pub record BlastRadius : Type 0 where
  pub root_service : String
  pub affected_downstream : List String
  pub depth : ℕ

abbrev pub radius : String → ℕ → List String → BlastRadius
radius root max_depth affected = record {
  root_service = root;
  affected_downstream = affected;
  depth = max_depth;
}

-- The variables of the loop of `blast_radius`.
pub record BlastState : Type 0 where
  pub affected : List String
  pub seen : List String
  pub queue : List (String × ℕ)

abbrev pub push : String → ℕ → BlastState → BlastState
push neighbor depth s = record {
  affected = s.affected ++ (neighbor ∷ []);
  seen = neighbor ∷ s.seen;
  queue = s.queue ++ ((neighbor, depth + 1) ∷ []);
}

abbrev pub visit : ℕ → List String → BlastState → BlastState
visit depth [] s = s
visit depth (neighbor ∷ ns) s =
    visit depth ns (if contains neighbor s.seen then s else push neighbor depth s)

module _ (g : Adjacency) (max_depth : ℕ) where
  abbrev pub pop : String → ℕ → BlastState → BlastState
  pop node depth s = if leb max_depth depth then s else visit depth (neighbors node g) s

  unfoldable pub blast_loop : ℕ → BlastState → Option (List String)
  blast_loop zero s = none
  blast_loop (suc fuel) s = elim s.queue [
    | [] ↦ some s.affected
    | (node, depth) ∷ rest ↦ blast_loop fuel (pop node depth (record s { queue = rest }))
  ]

abbrev pub blast_start : String → BlastState
blast_start root = record { affected = []; seen = root ∷ []; queue = (root, 0) ∷ [] }

-- Every service is queued once, so the fuel is enough.
unfoldable pub blast_radius : String → ℕ → DependencyGraph → Option BlastRadius
blast_radius root max_depth g =
    Option.map (radius root max_depth)
      (blast_loop g.forward max_depth (length (targets g.forward) + 2) (blast_start root))
