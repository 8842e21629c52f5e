-- ===== src/Causal/Tests.antt =====
-- A graph of four metrics with a cycle of two of them.
use becertain.Prelude.{ℕ, String, ◌&&◌, ◌==◌, List, [], ◌∷◌, some, contains, ◌≡◌, refl}
use becertain.Causal.Graph.{
  CausalEdge, empty_graph, add_edge, all_nodes, topological_sort, sort_loop,
}
use becertain.Causal.Counts.{rest}
use becertain.Causal.Release.{IsUnique}
use becertain.Causal.Order.{IsForward}
use becertain.Causal.Built.{add_edges}
use becertain.Causal.Sorted.{topological_sort_lem}

abbrev edge : String → String → CausalEdge ℕ
edge cause effect = record { cause = cause; effect = effect; strength = 1; lag_seconds = 0 }

abbrev metrics : List (CausalEdge ℕ)
metrics =
    edge "latency" "errors"
    ∷ edge "cpu" "latency"
    ∷ edge "errors" "retries"
    ∷ edge "retries" "errors"
    ∷ []

order_run : topological_sort (add_edges metrics empty_graph) ≡ some ("cpu" ∷ "latency" ∷ [])
unfolding topological_sort all_nodes add_edge sort_loop
order_run = refl

topological_sort_lem_example :
    let g = add_edges metrics empty_graph in
    (order : List String) × (topological_sort g ≡ some order)
    × IsUnique order
    × IsForward g.forward [] order
    × ((m : String)
        → contains m order ≡ (contains m (all_nodes g) && (rest m order g.forward == 0)))
topological_sort_lem_example = topological_sort_lem metrics
