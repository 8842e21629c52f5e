-- ===== src/Topology/Route/Shortest.antt =====
-- `critical_path` ends: with a shortest path, or with none where no path exists.
use mathlib.Core.Path.{subst}
use becertain.Prelude.{
  ℕ, zero, suc, ◌+◌, ◌≤◌, ◌<◌, String, true, List, [], ◌∷◌, some, str_eq, contains, length,
  length-append, All, ◌≡◌, sym, refl, ap, ◌∙◌, arith, eq_iff, ◌⊎◌, inl, inr, Bool-cases,
}
use becertain.Topology.Graph.{Adjacency, DependencyGraph, neighbors, targets}
use becertain.Topology.Pending.{pending, pending_followed, pending-targets}
use becertain.Topology.Blast.{Walk, Log, depth_of}
use becertain.Topology.Blast.Walk.{here, step}
use becertain.Topology.Route.{
  PathState, last, extensions, extend_path, path_loop, path_start, critical_path,
}
use becertain.Topology.Route.Search.{IsMet, IsSearch, extend-IsSearch}
use becertain.Topology.Route.Paths.{
  offers, IsOrdered, offers_first, offers_more, IsRoute, length-extensions,
}

module _ (g : Adjacency) (source target : String) where
  abbrev weight : PathState → ℕ
  weight s = length s.queue + pending s.seen g

  weight-extend :
      (path : List String) (rest : List (List String)) (s : PathState)
      → s.queue ≡ path ∷ rest
      → weight (extend_path g source target path (record s { queue = rest })) + 1 ≤ weight s
  weight-extend path rest s front =
      let node = last source path in
      elim (Bool-cases (contains node s.seen)) [
        | inl old ↦ rw old (omega (arith, ap length front))
        | inr new ↦ rw new (
            omega (
              arith,
              ap length front,
              pending_followed node s.seen g new,
              length-append rest (extensions path (neighbors node g)),
              length-extensions path (neighbors node g),
            ))
      ]

  -- Along a walk, everything was taken, or a path in the queue is not longer than the walk.
  frontier :
      (d : ℕ) (s : PathState) (log : Log) (k : ℕ) (n : String)
      → IsSearch g source target d s log
      → Walk g source k n
      → ((e : ℕ) × (depth_of n log ≡ some e) × (e ≤ k + 1))
        ⊎ ((w : String) × (offers source w (k + 1) s.queue ≡ true))
  unfolding IsMet
  frontier d s log k n i here = elim i.started [
    | inl taken ↦ inl taken
    | inr offered ↦ inr (source, offered)
  ]
  frontier d s log k n i (step j b c walk edge) = elim (frontier d s log j b i walk) [
    | inr (w, offered) ↦
        inr (w, offers_more source w (j + 1) (j + 1 + 1) s.queue (omega arith) offered)
    | inl (e, found, le) ↦ elim (i.closed b c e found edge) [
      | inl (e', found', le') ↦ inl (e', found', omega arith)
      | inr offered ↦
          inr (c, offers_more source c (e + 1) (j + 1 + 1) s.queue (omega arith) offered)
    ]
  ]

  -- No path, and the target is out of reach; or a path to the target that no walk is shorter than.
  pub IsAnswer : List String → Type 0
  IsAnswer path =
      ((path ≡ []) × ((k : ℕ) → ¬ Walk g source k target))
      ⊎ (IsRoute g source target path × ((k : ℕ) → Walk g source k target → length path ≤ k + 1))

  Queue-cases :
      (queue : List (List String))
      → (queue ≡ []) ⊎ ((path : List String) × (rest : List (List String)) × (queue ≡ path ∷ rest))
  Queue-cases [] = inl refl
  Queue-cases (path ∷ rest) = inr (path, rest, refl)

  -- Before the target is taken, a walk to it has a path of the queue that is not longer.
  offered_target :
      (d : ℕ) (s : PathState) (log : Log) (k : ℕ)
      → IsSearch g source target d s log
      → Walk g source k target
      → (w : String) × (offers source w (k + 1) s.queue ≡ true)
  offered_target d s log k i walk = elim (frontier d s log k target i walk) [
    | inl (e, found, le) ↦ absurd (ground (arith, i.agrees target, i.searching))
    | inr offered ↦ offered
  ]

  path_loop_lem :
      (fuel d : ℕ) (s : PathState) (log : Log)
      → IsSearch g source target d s log
      → weight s < fuel
      → (path : List String) × (path_loop g source target fuel s ≡ some path) × IsAnswer path
  unfolding path_loop IsAnswer
  path_loop_lem zero d s log i enough = absurd (omega arith)
  path_loop_lem (suc fuel) d s log i enough = elim (Queue-cases s.queue) [
    | inl over ↦ (
      [],
      rw over refl,
      inl (
        refl,
        λ k walk.
            let (w, offered) = offered_target d s log k i walk in
            ground (arith, ap (offers source w (k + 1)) over),
      ),
    )
    | inr (path, rest, front) ↦ elim (Bool-cases (str_eq (last source path) target)) [
      | inl found ↦
          let routes = subst (All (λ p. IsRoute g source (last source p) p)) front i.routes in
          (
            path,
            rw (front, found) refl,
            inr (
              subst (λ x. IsRoute g source x path) ((eq_iff (last source path) target).0 found)
                  routes.0,
              λ k walk.
                  let (w, offered) = offered_target d s log k i walk in
                  offers_first source w (k + 1) d path rest (subst (IsOrdered d) front i.ordered)
                    (sym (ap (offers source w (k + 1)) front) ∙ offered),
            ),
          )
      | inr apart ↦
          let (log', i') = extend-IsSearch g source target d path rest s log i front apart in
          let s' = extend_path g source target path (record s { queue = rest }) in
          let (answer, returned, right) =
            path_loop_lem fuel (length path) s' log' i'
              (omega (arith, weight-extend path rest s front)) in
          (answer, rw (front, apart) returned, right)
    ]
  ]

-- `critical_path` ends. It returns a path of calls from the source to the target that is no longer
-- than any walk between them, or the empty path if there is no walk.
pub critical_path_lem :
    (source target : String) (g : DependencyGraph)
    → (path : List String) × (critical_path source target g ≡ some path)
      × (((path ≡ []) × ((k : ℕ) → ¬ Walk g.forward source k target))
          ⊎ (IsRoute g.forward source target path
              × ((k : ℕ) → Walk g.forward source k target → length path ≤ k + 1)))
unfolding critical_path IsAnswer IsMet
critical_path_lem source target g = elim (Bool-cases (str_eq source target)) [
  | inl same ↦ (
    source ∷ [],
    rw same refl,
    inr (([], refl, tt, (eq_iff source target).0 same), λ k walk. omega arith),
  )
  | inr apart ↦
      let start : IsSearch g.forward source target 1 (path_start source) [] = record {
        agrees = λ n. refl;
        past = λ n e h. absurd (ground arith);
        routes = (([], refl, tt, refl), tt);
        ordered = (omega arith, tt);
        near = (omega arith, tt);
        closed = λ u w e h edge. absurd (ground arith);
        started = inr (ground (arith, eq_iff source source));
        searching = refl;
      } in
      let (path, returned, right) =
        path_loop_lem g.forward source target (length (targets g.forward) + 2) 1 (path_start source)
          [] start (omega (arith, pending-targets g.forward)) in
      (path, rw apart returned, right)
]
