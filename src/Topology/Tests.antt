-- ===== src/Topology/Tests.antt =====
-- The dependency graph at a concrete input.
use becertain.Prelude.{
  ℕ, ◌+◌, ◌≤◌, String, true, ◌&&◌, List, [], ◌∷◌, some, contains, any, length, ◌≡◌, refl, ◌≢◌, ◌↔◌,
  ◌⊎◌,
}
use becertain.Topology.Graph.{
  DependencyGraph, neighbors, add_call, empty_graph, blast_radius, blast_loop, radius,
}
use becertain.Topology.Calls.{add_calls, add_calls_lem, is_call, is_recorded}
use becertain.Topology.Blast.{Walk}
use becertain.Topology.Blast.Radius.{blast_radius_lem}
use becertain.Topology.Upstream.{find_upstream_roots, roots_loop}
use becertain.Topology.Upstream.Roots.{find_upstream_roots_lem}
use becertain.Topology.Route.{critical_path, path_loop}
use becertain.Topology.Route.Paths.{IsRoute}
use becertain.Topology.Route.Shortest.{critical_path_lem}

-- A web shop: the gateway calls the cart and the search, and both call the store.
abbrev calls : List (String × String)
calls =
    ("gateway", "cart")
    ∷ ("gateway", "search")
    ∷ ("cart", "store")
    ∷ ("search", "store")
    ∷ ("store", "store")
    ∷ []

abbrev shop : DependencyGraph
shop = record {
  forward =
      ("gateway", "cart" ∷ "search" ∷ []) ∷ ("cart", "store" ∷ []) ∷ ("search", "store" ∷ []) ∷ [];
  reverse =
      ("cart", "gateway" ∷ [])
      ∷ ("search", "gateway" ∷ [])
      ∷ ("store", "cart" ∷ "search" ∷ [])
      ∷ [];
}

shop_run : add_calls calls empty_graph ≡ shop
unfolding add_call
shop_run = refl

blast_run :
    blast_radius "gateway" 2 shop ≡ some (radius "gateway" 2 ("cart" ∷ "search" ∷ "store" ∷ []))
unfolding blast_radius blast_loop
blast_run = refl

roots_run : find_upstream_roots "store" shop ≡ some ("gateway" ∷ [])
unfolding find_upstream_roots roots_loop
roots_run = refl

path_run : critical_path "gateway" "store" shop ≡ some ("gateway" ∷ "cart" ∷ "store" ∷ [])
unfolding critical_path path_loop
path_run = refl

add_calls_lem_run :
    let made = any (λ call. is_call "cart" "store" call && is_recorded call) calls in
    let g = add_calls calls empty_graph in
    (contains "store" (neighbors "cart" g.forward) ≡ made)
    × (contains "cart" (neighbors "store" g.reverse) ≡ made)
add_calls_lem_run = add_calls_lem "cart" "store" calls

blast_radius_lem_example :
    (affected : List String) × (blast_radius "gateway" 1 shop ≡ some (radius "gateway" 1 affected))
    × ((n : String)
        → (contains n affected ≡ true)
          ↔ ((n ≢ "gateway") × ((k : ℕ) × (k ≤ 1) × Walk shop.forward "gateway" k n)))
blast_radius_lem_example = blast_radius_lem "gateway" 1 shop

find_upstream_roots_lem_example :
    (roots : List String) × (find_upstream_roots "store" shop ≡ some roots)
    × ((n : String)
        → (contains n roots ≡ true)
          ↔ ((neighbors n shop.reverse ≡ []) × ((k : ℕ) × Walk shop.reverse "store" k n)))
find_upstream_roots_lem_example = find_upstream_roots_lem "store" shop

critical_path_lem_example :
    (path : List String) × (critical_path "gateway" "store" shop ≡ some path)
    × (((path ≡ []) × ((k : ℕ) → ¬ Walk shop.forward "gateway" k "store"))
        ⊎ (IsRoute shop.forward "gateway" "store" path
            × ((k : ℕ) → Walk shop.forward "gateway" k "store" → length path ≤ k + 1)))
critical_path_lem_example = critical_path_lem "gateway" "store" shop
