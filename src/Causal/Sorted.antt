-- ===== src/Causal/Sorted.antt =====
-- `topological_sort` of a graph that was built by `add_edge`.
use mathlib.Core.Path.{subst}
use becertain.Prelude.{
  ℕ, zero, suc, ◌+◌, ◌≤◌, ◌<◌, String, Bool, true, not, ◌&&◌, List, [], ◌∷◌, ◌++◌, some, ◌==◌,
  str_eq, eq_iff, contains, filter, length, length-filter, append_nil, ◌≡◌, refl, sym, ap, ◌∙◌,
  arith, ◌⊎◌, inl, inr, Bool-cases,
}
use becertain.Store.Client.Bounds.{HasUniqueKeys}
use becertain.Causal.Graph.{
  CausalEdge, Forward, edges_from, empty_graph, add_causes, all_nodes, degree, SortState, release,
  sort_loop, sort_start, topological_sort, count_all, zero_degrees,
}
use becertain.Causal.Counts.{rest, degree-count_all, degree-zero_degrees}
use becertain.Causal.Release.{IsUnique}
use becertain.Causal.Built.{
  add_edges, rest_le, contains-add_effects, IsUnique-add_causes, IsUnique-add_effects,
  add_edges-IsBuilt,
}
use becertain.Causal.Order.{IsForward, IsSorting, take_node, unplaced}

Queue-cases :
    (queue : List String)
    → (queue ≡ []) ⊎ ((node : String) × (others : List String) × (queue ≡ node ∷ others))
Queue-cases [] = inl refl
Queue-cases (node ∷ others) = inr (node, others, refl)

contains-filter :
    (m : String) (p : String → Bool) (ns : List String)
    → contains m (filter p ns) ≡ (contains m ns && p m)
contains-filter m p [] = refl
contains-filter m p (n ∷ ns) = elim (Bool-cases (str_eq n m)) [
  | inl same ↦
      let named = ap p ((eq_iff n m).0 same) in ground (arith, contains-filter m p ns, named)
  | inr other ↦ ground (arith, contains-filter m p ns)
]

IsUnique-filter : (p : String → Bool) (ns : List String) → IsUnique ns → IsUnique (filter p ns)
IsUnique-filter p [] u = tt
IsUnique-filter p (n ∷ ns) u = elim (Bool-cases (p n)) [
  | inl kept ↦ rw kept (ground (arith, contains-filter n p ns, u.0), IsUnique-filter p ns u.1)
  | inr dropped ↦ rw dropped (IsUnique-filter p ns u.1)
]

module _ {F : Type 0} (g : Forward F) (nodes : List String) where
  -- The nodes in the order are distinct, and come after the causes of all their edges. A node is
  -- left out exactly if an edge into it has a cause that is left out.
  unfoldable pub IsSorted : List String → Type 0
  IsSorted order =
      IsUnique order
      × IsForward g [] order
      × ((m : String) → contains m order ≡ (contains m nodes && (rest m order g == 0)))

  sort_loop_lem :
      (unique_keys : HasUniqueKeys g)
      (linked : (m : String) (placed : List String) → 1 ≤ rest m placed g → contains m nodes ≡ true)
      (fuel : ℕ) (s : SortState)
      → IsSorting g nodes s
      → unplaced s.order nodes < fuel
      → (order : List String) × (sort_loop g fuel s ≡ some order) × IsSorted order
  unfolding sort_loop IsSorted
  sort_loop_lem unique_keys linked zero s i enough = absurd (omega arith)
  sort_loop_lem unique_keys linked (suc fuel) s i enough = elim (Queue-cases s.queue) [
    | inl over ↦
        let all = ap (λ q. s.order ++ q) over ∙ append_nil s.order in
        (
          s.order,
          rw over refl,
          (
            subst IsUnique all i.clear.unique,
            i.forward,
            λ m. sym (ap (contains m) all) ∙ i.chosen m,
          ),
        )
    | inr (node, others, front) ↦
        let (i', fewer) = take_node g nodes unique_keys linked node others s i front in
        let s' =
          release (edges_from node g)
            (record s { order = s.order ++ (node ∷ []); queue = others }) in
        let (order, returned, sorted) = sort_loop_lem unique_keys linked fuel s' i' (omega arith) in
        (order, rw front returned, sorted)
  ]

  start-IsSorting : IsUnique nodes → IsSorting g nodes (sort_start nodes g)
  start-IsSorting u =
      let degrees = count_all g (zero_degrees nodes) in
      let known : (m : String) → degree m degrees ≡ rest m [] g = λ m.
        omega (arith, degree-count_all m g (zero_degrees nodes), degree-zero_degrees m nodes) in
      let chosen : (m : String)
          → contains m (filter (λ n. degree n degrees == 0) nodes)
            ≡ (contains m nodes && (rest m [] g == 0)) =
        λ m.
          contains-filter m (λ n. degree n degrees == 0) nodes
          ∙ ap (λ d. contains m nodes && (d == 0)) (known m) in
      record {
        clear = record {
          unique = IsUnique-filter (λ n. degree n degrees == 0) nodes u;
          clear = λ m h. ground (arith, contains-filter m (λ n. degree n degrees == 0) nodes);
        };
        left = known;
        chosen = chosen;
        forward = tt;
      }

-- `topological_sort` ends for every graph that `add_edge` builds. The nodes of its order are
-- distinct, and each stands after the causes of all edges into it; and a node of the graph is left
-- out exactly if some edge into it has a cause that is left out, as on a cycle and behind one.
pub topological_sort_lem :
    {F : Type 0} (es : List (CausalEdge F))
    → let g = add_edges es empty_graph in
      (order : List String) × (topological_sort g ≡ some order)
      × IsUnique order
      × IsForward g.forward [] order
      × ((m : String)
          → contains m order ≡ (contains m (all_nodes g) && (rest m order g.forward == 0)))
unfolding topological_sort all_nodes IsSorted
topological_sort_lem es =
    let g = add_edges es empty_graph in
    let built = add_edges-IsBuilt es empty_graph (record { unique_keys = tt; both = λ m. refl }) in
    let nodes = all_nodes g in
    let unique =
      IsUnique-add_effects g.edges (add_causes g.forward [])
        (IsUnique-add_causes g.forward [] tt) in
    let few = length-filter (λ n. not (contains n [])) nodes in
    let (order, returned, sorted) =
      sort_loop_lem g.forward nodes built.unique_keys
        (λ m placed h.
          contains-add_effects m g.edges (add_causes g.forward [])
            (omega (arith, built.both m, rest_le m placed g.forward)))
        (length nodes + 1) (sort_start nodes g.forward) (start-IsSorting g.forward nodes unique)
        (omega (arith, few)) in
    (order, returned, sorted.0, sorted.1, sorted.2)
