-- ===== src/Causal/Graph.antt =====
-- `CausalGraph`, and its topological order. A set of nodes is a list; the theorems hold for every
-- order of its elements, as Python promises none.
use becertain.Prelude.{
  ℕ, zero, suc, ◌+◌, ◌-◌, String, List, [], ◌∷◌, ◌++◌, Option, none, some, if◌then◌else◌, ◌==◌,
  str_eq, contains, length, filter,
}
use becertain.Store.Client.{lookup, assign}
use becertain.Store.Granger.{GrangerRecord}

pub record CausalEdge (F : Type 0) : Type 0 where
  pub cause : String
  pub effect : String
  pub strength : F
  pub lag_seconds : F

-- The edges by their causes, a `defaultdict(list)`.
abbrev pub Forward : Type 0 → Type 0
Forward F = List (String × List (CausalEdge F))

pub record CausalGraph (F : Type 0) : Type 0 where
  pub edges : List (CausalEdge F)
  pub forward : Forward F

abbrev pub insert_node : String → List String → List String
insert_node n ns = if contains n ns then ns else ns ++ (n ∷ [])

-- The dict `in_degree`.
abbrev pub Degrees : Type 0
Degrees = List (String × ℕ)

abbrev pub degree : String → Degrees → ℕ
degree n degrees = elim (lookup n degrees) [ none ↦ 0 | some d ↦ d ]

abbrev pub zero_degrees : List String → Degrees
zero_degrees [] = []
zero_degrees (n ∷ ns) = (n, 0) ∷ zero_degrees ns

pub record SortState : Type 0 where
  pub in_degree : Degrees
  pub order : List String
  pub queue : List String

module _ {F : Type 0} where
  -- `d.get(node, [])`
  abbrev pub edges_from : String → Forward F → List (CausalEdge F)
  edges_from node [] = []
  edges_from node ((n, es) ∷ d) = if str_eq n node then es else edges_from node d

  -- `d[node].append(edge)`
  abbrev pub append_edge : String → CausalEdge F → Forward F → Forward F
  append_edge node edge [] = (node, edge ∷ []) ∷ []
  append_edge node edge ((n, es) ∷ d) =
      if str_eq n node then (n, es ++ (edge ∷ [])) ∷ d else (n, es) ∷ append_edge node edge d

  abbrev pub empty_graph : CausalGraph F
  empty_graph = record { edges = []; forward = [] }

  unfoldable pub add_edge : CausalEdge F → CausalGraph F → CausalGraph F
  add_edge edge g = record {
    edges = g.edges ++ (edge ∷ []);
    forward = append_edge edge.cause edge g.forward;
  }

  abbrev pub granger_edge : F → GrangerRecord F → CausalEdge F
  granger_edge no_lag r = record {
    cause = r.cause_metric;
    effect = r.effect_metric;
    strength = r.strength;
    lag_seconds = no_lag;
  }

  unfoldable pub from_granger_results : F → List (GrangerRecord F) → CausalGraph F → CausalGraph F
  from_granger_results no_lag [] g = g
  from_granger_results no_lag (r ∷ rs) g =
      if r.is_causal
      then from_granger_results no_lag rs (add_edge (granger_edge no_lag r) g)
      else from_granger_results no_lag rs g

  abbrev pub add_causes : Forward F → List String → List String
  add_causes [] nodes = nodes
  add_causes ((n, es) ∷ d) nodes = add_causes d (insert_node n nodes)

  abbrev pub add_effects : List (CausalEdge F) → List String → List String
  add_effects [] nodes = nodes
  add_effects (e ∷ es) nodes = add_effects es (insert_node e.effect nodes)

  unfoldable pub all_nodes : CausalGraph F → List String
  all_nodes g = add_effects g.edges (add_causes g.forward [])

  abbrev pub count_edges : List (CausalEdge F) → Degrees → Degrees
  count_edges [] degrees = degrees
  count_edges (e ∷ es) degrees =
      count_edges es (assign e.effect (degree e.effect degrees + 1) degrees)

  abbrev pub count_all : Forward F → Degrees → Degrees
  count_all [] degrees = degrees
  count_all ((n, es) ∷ d) degrees = count_all d (count_edges es degrees)

  -- `in_degree[edge.effect] -= 1`, and the test for zero. The edge was counted before, so that the
  -- subtraction of natural numbers is that of the code.
  abbrev pub lower : CausalEdge F → SortState → SortState
  lower e s =
      let d = degree e.effect s.in_degree - 1 in
      record {
        in_degree = assign e.effect d s.in_degree;
        order = s.order;
        queue = if d == 0 then s.queue ++ (e.effect ∷ []) else s.queue;
      }

  -- The loop over the edges of the node that was taken.
  abbrev pub release : List (CausalEdge F) → SortState → SortState
  release [] s = s
  release (e ∷ es) s = release es (lower e s)

  unfoldable pub sort_loop : Forward F → ℕ → SortState → Option (List String)
  sort_loop g zero s = none
  sort_loop g (suc fuel) s = elim s.queue [
    | [] ↦ some s.order
    | node ∷ rest ↦
        sort_loop g fuel
          (release (edges_from node g) (record s { order = s.order ++ (node ∷ []); queue = rest }))
  ]

  abbrev pub sort_start : List String → Forward F → SortState
  sort_start nodes g =
      let in_degree = count_all g (zero_degrees nodes) in
      record {
        in_degree = in_degree;
        order = [];
        queue = filter (λ n. degree n in_degree == 0) nodes;
      }

  -- Every node is taken from the queue once, so the fuel is enough.
  unfoldable pub topological_sort : CausalGraph F → Option (List String)
  topological_sort g =
      let nodes = all_nodes g in sort_loop g.forward (length nodes + 1) (sort_start nodes g.forward)
