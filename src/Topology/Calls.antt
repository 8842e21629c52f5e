-- ===== src/Topology/Calls.antt =====
-- What `add_call` records: both directions of each call between two different services.
use mathlib.Core.Path.{subst}
use becertain.Prelude.{
  String, Bool, true, not, ◌&&◌, ◌||◌, List, [], ◌∷◌, str_eq, contains, ◌≡◌, arith, eq_iff, inl,
  inr, Bool-cases, any,
}
use becertain.Topology.Graph.{
  Adjacency, DependencyGraph, neighbors, add_element, add_to, add_call, empty_graph,
}
use becertain.Topology.Pending.{contains-append}

contains-add_element :
    (y x : String) (xs : List String)
    → contains y (add_element x xs) ≡ (contains y xs || str_eq x y)
contains-add_element y x xs = elim (Bool-cases (contains x xs)) [
  | inl old ↦ elim (Bool-cases (str_eq x y)) [
    | inl same ↦
        let there = subst (λ z. contains z xs ≡ true) ((eq_iff x y).0 same) old in
        rw old (ground arith)
    | inr other ↦ rw old (ground arith)
  ]
  | inr new ↦ rw new (ground (arith, contains-append y xs (x ∷ [])))
]

neighbors-add_to :
    (a b x y : String) (d : Adjacency)
    → contains y (neighbors x (add_to a b d))
      ≡ (contains y (neighbors x d) || (str_eq a x && str_eq b y))
neighbors-add_to a b x y [] = ground arith
neighbors-add_to a b x y ((n, ns) ∷ d) = ground (
  arith,
  neighbors-add_to a b x y d,
  contains-add_element y b ns,
  eq_iff n a,
  eq_iff n x,
  eq_iff a x,
)

-- A call that is recorded: between two different services that have names.
abbrev pub is_recorded : String × String → Bool
is_recorded (caller, callee) =
    not (str_eq caller callee) && (not (str_eq caller "") && not (str_eq callee ""))

abbrev pub is_call : String → String → String × String → Bool
is_call x y (caller, callee) = str_eq caller x && str_eq callee y

abbrev pub add_calls : List (String × String) → DependencyGraph → DependencyGraph
add_calls [] g = g
add_calls ((caller, callee) ∷ calls) g = add_calls calls (add_call caller callee g)

neighbors-add_call :
    (a b x y : String) (g : DependencyGraph)
    → (contains y (neighbors x (add_call a b g).forward)
        ≡ (contains y (neighbors x g.forward) || (is_call x y (a, b) && is_recorded (a, b))))
      × (contains x (neighbors y (add_call a b g).reverse)
          ≡ (contains x (neighbors y g.reverse) || (is_call x y (a, b) && is_recorded (a, b))))
unfolding add_call
neighbors-add_call a b x y g = elim (Bool-cases (is_recorded (a, b))) [
  | inl recorded ↦ (
    ground (arith, neighbors-add_to a b x y g.forward),
    ground (arith, neighbors-add_to b a y x g.reverse),
  )
  | inr refused ↦ (ground arith, ground arith)
]

from_graph :
    (x y : String) (calls : List (String × String)) (g : DependencyGraph)
    → let made = any (λ call. is_call x y call && is_recorded call) calls in
      (contains y (neighbors x (add_calls calls g).forward)
        ≡ (contains y (neighbors x g.forward) || made))
      × (contains x (neighbors y (add_calls calls g).reverse)
          ≡ (contains x (neighbors y g.reverse) || made))
from_graph x y [] g = (ground arith, ground arith)
from_graph x y ((a, b) ∷ calls) g =
    let (forth, back) = from_graph x y calls (add_call a b g) in
    let (one, other) = neighbors-add_call a b x y g in
    (ground (arith, forth, one), ground (arith, back, other))

-- After any calls of `add_call`, in any order and with repetitions, the callees and the callers of
-- the services are exactly those of the calls between two different services that have names.
pub add_calls_lem :
    (x y : String) (calls : List (String × String))
    → let made = any (λ call. is_call x y call && is_recorded call) calls in
      let g = add_calls calls empty_graph in
      (contains y (neighbors x g.forward) ≡ made) × (contains x (neighbors y g.reverse) ≡ made)
add_calls_lem x y calls = from_graph x y calls empty_graph
