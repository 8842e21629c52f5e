-- ===== src/Topology/Upstream/Roots.antt =====
-- The search for the roots ends, with exactly the services that nobody calls and that lead to the
-- given one.
use mathlib.Core.Path.{subst}
use becertain.Prelude.{
  ℕ, zero, suc, ◌+◌, ◌≤◌, ◌<◌, String, Bool, true, false, ◌&&◌, ◌||◌, List, [], ◌∷◌, some, str_eq,
  contains, length, length-append, ◌≡◌, ◌↔◌, sym, refl, ap, ◌∙◌, arith, eq_iff, ◌⊎◌, inl, inr,
  Bool-cases,
}
use becertain.Topology.Graph.{Adjacency, DependencyGraph, neighbors, targets}
use becertain.Topology.Pending.{
  contains-append, pending, pending_fewer, pending_followed, pending-targets,
}
use becertain.Topology.Blast.{Walk}
use becertain.Topology.Blast.Walk.{here, step}
use becertain.Topology.Upstream.{
  RootState, follow, visit_root, roots_loop, root_start, find_upstream_roots,
}

abbrev pub is_empty : List String → Bool
is_empty [] = true
is_empty (x ∷ xs) = false

module _ (g : Adjacency) (service : String) where
  record IsSearch (s : RootState) : Type 0 where
    listed : (n : String) → contains n s.roots ≡ (contains n s.seen && is_empty (neighbors n g))
    reached :
        (n : String)
        → (contains n s.seen || contains n s.queue) ≡ true
        → (k : ℕ) × Walk g service k n
    closed :
        (u w : String)
        → contains u s.seen ≡ true
        → contains w (neighbors u g) ≡ true
        → (contains w s.seen || contains w s.queue) ≡ true
    started : (contains service s.seen || contains service s.queue) ≡ true

  follow-IsSearch :
      (node : String) (rest : List String) (s : RootState) (callers : List String)
      → neighbors node g ≡ callers
      → IsSearch s
      → s.queue ≡ node ∷ rest
      → IsSearch (follow node callers (record s { queue = rest }))
  follow-IsSearch node rest s [] none_calls i front = record {
    listed = λ n. elim (Bool-cases (str_eq node n)) [
      | inl same ↦
          let empty = subst (λ x. neighbors x g ≡ []) ((eq_iff node n).0 same) none_calls in
          ground (arith, contains-append n s.roots (node ∷ []), ap is_empty empty)
      | inr other ↦ ground (arith, i.listed n, contains-append n s.roots (node ∷ []))
    ];
    reached = λ n h. i.reached n (ground (arith, ap (contains n) front));
    closed = λ u w h edge. elim (Bool-cases (str_eq node u)) [
      | inl same ↦
          let empty = subst (λ x. neighbors x g ≡ []) ((eq_iff node u).0 same) none_calls in
          absurd (ground (arith, ap (contains w) empty))
      | inr other ↦ ground (arith, i.closed u w, ap (contains w) front)
    ];
    started = ground (arith, i.started, ap (contains service) front);
  }
  follow-IsSearch node rest s (c ∷ cs) calls i front = record {
    listed = λ n. elim (Bool-cases (str_eq node n)) [
      | inl same ↦
          let called = subst (λ x. neighbors x g ≡ c ∷ cs) ((eq_iff node n).0 same) calls in
          ground (arith, i.listed n, ap is_empty called)
      | inr other ↦ ground (arith, i.listed n)
    ];
    reached = λ n h. elim (Bool-cases (contains n (c ∷ cs))) [
      | inl caller ↦
          let (k, walk) =
            i.reached node (ground (arith, ap (contains node) front, eq_iff node node)) in
          (k + 1, step k node n walk (ap (contains n) calls ∙ caller))
      | inr other ↦
          i.reached n (ground (arith, ap (contains n) front, contains-append n rest (c ∷ cs)))
    ];
    closed = λ u w h edge. elim (Bool-cases (str_eq node u)) [
      | inl same ↦
          let called = subst (λ x. neighbors x g ≡ c ∷ cs) ((eq_iff node u).0 same) calls in
          let caller = sym (ap (contains w) called) ∙ edge in
          ground (arith, contains-append w rest (c ∷ cs))
      | inr other ↦
          ground (arith, i.closed u w, ap (contains w) front, contains-append w rest (c ∷ cs))
    ];
    started =
        ground
          (arith, i.started, ap (contains service) front, contains-append service rest (c ∷ cs));
  }

  visit-IsSearch :
      (node : String) (rest : List String) (s : RootState)
      → IsSearch s
      → s.queue ≡ node ∷ rest
      → IsSearch (visit_root g node (record s { queue = rest }))
  visit-IsSearch node rest s i front = elim (Bool-cases (contains node s.seen)) [
    | inl old ↦ rw old (record {
      listed = i.listed;
      reached = λ n h. i.reached n (ground (arith, ap (contains n) front));
      closed = λ u w h edge. seen_or_later old w (i.closed u w h edge);
      started = seen_or_later old service i.started;
    })
    | inr new ↦ rw new (follow-IsSearch node rest s (neighbors node g) refl i front)
  ]
    where
      seen_or_later :
          contains node s.seen ≡ true
          → (w : String) → (contains w s.seen || contains w s.queue) ≡ true
          → (contains w s.seen || contains w rest) ≡ true
      seen_or_later old w h = elim (Bool-cases (str_eq node w)) [
        | inl same ↦
            let met = subst (λ x. contains x s.seen ≡ true) ((eq_iff node w).0 same) old in
            ground arith
        | inr other ↦ ground (arith, ap (contains w) front)
      ]

  abbrev weight : RootState → ℕ
  weight s = length s.queue + pending s.seen g

  weight-follow :
      (node : String) (rest : List String) (s : RootState) (callers : List String)
      → contains node s.seen ≡ false
      → neighbors node g ≡ callers
      → weight (follow node callers (record s { queue = rest })) ≤ length rest + pending s.seen g
  weight-follow node rest s [] new calls = omega (arith, pending_fewer node s.seen g)
  weight-follow node rest s (c ∷ cs) new calls =
      omega
        (arith, pending_followed node s.seen g new, ap length calls, length-append rest (c ∷ cs))

  weight-visit :
      (node : String) (rest : List String) (s : RootState)
      → s.queue ≡ node ∷ rest
      → weight (visit_root g node (record s { queue = rest })) + 1 ≤ weight s
  weight-visit node rest s front = elim (Bool-cases (contains node s.seen)) [
    | inl old ↦ rw old (omega (arith, ap length front))
    | inr new ↦
        rw new
          (omega (arith, ap length front, weight-follow node rest s (neighbors node g) new refl))
  ]

  all_seen :
      (s : RootState) (k : ℕ) (n : String)
      → IsSearch s
      → s.queue ≡ []
      → Walk g service k n
      → contains n s.seen ≡ true
  all_seen s k n i over here = ground (arith, i.started, ap (contains service) over)
  all_seen s k n i over (step j b c walk edge) =
      let before = all_seen s j b i over walk in
      ground (arith, i.closed b c before edge, ap (contains c) over)

  Queue-cases :
      (queue : List String)
      → (queue ≡ []) ⊎ ((node : String) × (rest : List String) × (queue ≡ node ∷ rest))
  Queue-cases [] = inl refl
  Queue-cases (node ∷ rest) = inr (node, rest, refl)

  is_empty→[] : (xs : List String) → is_empty xs ≡ true → xs ≡ []
  is_empty→[] [] h = refl
  is_empty→[] (x ∷ xs) h = absurd (ground arith)

  roots_loop_lem :
      (fuel : ℕ) (s : RootState)
      → IsSearch s
      → weight s < fuel
      → (roots : List String) × (roots_loop g fuel s ≡ some roots)
        × ((n : String)
            → (contains n roots ≡ true) ↔ ((neighbors n g ≡ []) × ((k : ℕ) × Walk g service k n)))
  unfolding roots_loop
  roots_loop_lem zero s i enough = absurd (omega arith)
  roots_loop_lem (suc fuel) s i enough = elim (Queue-cases s.queue) [
    | inl over ↦ (
      s.roots,
      rw over refl,
      λ n. (
        λ h. (
          is_empty→[] (neighbors n g) (ground (arith, i.listed n)),
          i.reached n (ground (arith, i.listed n)),
        ),
        λ h.
            let met = all_seen s h.1.0 n i over h.1.1 in
            ground (arith, i.listed n, ap is_empty h.0),
      ),
    )
    | inr (node, rest, front) ↦
        let s' = visit_root g node (record s { queue = rest }) in
        let (roots, returned, exact) =
          roots_loop_lem fuel s' (visit-IsSearch node rest s i front)
            (omega (arith, weight-visit node rest s front)) in
        (roots, rw front returned, exact)
  ]

-- `find_upstream_roots` ends, and returns those services that have no callers and that lead to the
-- given one by calls, in any number of steps.
pub find_upstream_roots_lem :
    (service : String) (g : DependencyGraph)
    → (roots : List String) × (find_upstream_roots service g ≡ some roots)
      × ((n : String)
          → (contains n roots ≡ true)
            ↔ ((neighbors n g.reverse ≡ []) × ((k : ℕ) × Walk g.reverse service k n)))
unfolding find_upstream_roots
find_upstream_roots_lem service g =
    let start : IsSearch g.reverse service (root_start service) = record {
      listed = λ n. refl;
      reached = λ n h.
          (0, subst (λ x. Walk g.reverse service 0 x) ((eq_iff service n).0 (ground arith)) here);
      closed = λ u w h edge. absurd (ground arith);
      started = ground (arith, eq_iff service service);
    } in
    roots_loop_lem g.reverse service (length (targets g.reverse) + 2) (root_start service) start
      (omega (arith, pending-targets g.reverse))
