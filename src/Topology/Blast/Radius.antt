-- ===== src/Topology/Blast/Radius.antt =====
-- The search ends, and what it returns is the blast radius.
use becertain.Prelude.{
  ℕ, zero, suc, ◌+◌, ◌≤◌, ◌<◌, String, true, not, List, [], ◌∷◌, some, str_eq, contains, length,
  length-filter, leb, All, ◌≡◌, ◌≢◌, ◌↔◌, sym, refl, ap, arith, eq_iff, ◌⊎◌, inl, inr, Bool-cases,
  Option-cases,
}
use mathlib.Core.Path.{subst}
use mathlib.Core.Option
use becertain.Topology.Graph.{
  Adjacency, DependencyGraph, neighbors, targets, BlastState, radius, pop, blast_loop, blast_start,
  blast_radius,
}
use becertain.Topology.Blast.{Walk, Log, depth_of, IsOrdered, waits, IsFollowed, IsSearch}
use becertain.Topology.Blast.Walk.{here, step}
use becertain.Topology.Blast.Weight.{weight, weight-visit, neighbors-targets}
use becertain.Topology.Blast.Visit.{Extends, visit-IsVisited}

Queue-cases :
    (queue : List (String × ℕ))
    → (queue ≡ [])
      ⊎ ((node : String) × (d : ℕ) × (rest : List (String × ℕ)) × (queue ≡ (node, d) ∷ rest))
Queue-cases [] = inl refl
Queue-cases ((node, d) ∷ rest) = inr (node, d, rest, refl)

module _ (g : Adjacency) (max_depth : ℕ) where
  -- Every service that was seen waits in the queue, or its calls have been followed.
  pub IsSettled : BlastState → Log → Type 0
  IsSettled s log =
      (u : String) (e : ℕ)
      → depth_of u log ≡ some e
      → (waits u s.queue ≡ true) ⊎ IsFollowed g max_depth log u e

  -- With an empty queue, the log has the services of every walk within the depth.
  logged-Walk :
      (root : String) (s : BlastState) (log : Log) (k : ℕ) (n : String)
      → IsSettled s log
      → s.queue ≡ []
      → depth_of root log ≡ some 0
      → Walk g root k n
      → k ≤ max_depth
      → (e : ℕ) × (depth_of n log ≡ some e) × (e ≤ k)
  unfolding IsSettled IsFollowed
  logged-Walk root s log k n settled over rooted here le = (0, rooted, omega arith)
  logged-Walk root s log k n settled over rooted (step j b c walk edge) le =
      let (e, found, near) = logged-Walk root s log j b settled over rooted walk (omega arith) in
      elim (settled b e found) [
        | inl waiting ↦ absurd (ground (arith, ap (waits b) over))
        | inr followed ↦
            let (e', found', near') = followed (omega arith) c edge in (e', found', omega arith)
      ]

  -- What the loop returns: the services other than the root at the end of a walk within the depth.
  pub IsRadius : String → List String → Type 0
  IsRadius root affected =
      (n : String)
      → (contains n affected ≡ true) ↔ ((n ≢ root) × ((k : ℕ) × (k ≤ max_depth) × Walk g root k n))

  finished :
      (root : String) (d : ℕ) (s : BlastState) (log : Log)
      → IsSearch g max_depth root d s log
      → IsSettled s log
      → s.queue ≡ []
      → IsRadius root s.affected
  unfolding IsRadius
  finished root d s log i settled over n = (
    λ h. elim (Option-cases (depth_of n log)) [
      | inl missing ↦ absurd (ground (arith, i.listed n, i.agrees n))
      | inr (e, found) ↦
          let (near, walk) = i.reached n e found in
          (ground (arith, i.listed n, eq_iff n root), (e, near, walk))
    ],
    λ h.
        let (apart, (k, near, walk)) = h in
        let (e, found, _) = logged-Walk root s log k n settled over i.rooted walk near in
        ground (arith, i.listed n, i.agrees n, eq_iff n root),
  )

  pop_lem :
      (root v : String) (d d' : ℕ) (s : BlastState) (rest : List (String × ℕ)) (log : Log)
      → IsSearch g max_depth root d s log
      → IsSettled s log
      → s.queue ≡ (v, d') ∷ rest
      → let s' = pop g max_depth v d' (record s { queue = rest }) in
        (log' : Log) × IsSearch g max_depth root d' s' log'
        × IsSettled s' log'
        × (weight g s' + 1 ≤ weight g s)
  unfolding IsSettled IsFollowed Extends
  pop_lem root v d d' s rest log i settled front =
      let ordered = subst (IsOrdered d) front i.ordered in
      let logged = subst (All (λ entry. depth_of entry.0 log ≡ some entry.1)) front i.logged in
      let shorter = ap length front in
      let popped : IsSearch g max_depth root d' (record s { queue = rest }) log = record {
        agrees = i.agrees;
        listed = i.listed;
        rooted = i.rooted;
        reached = i.reached;
        near = λ n e h. omega (arith, i.near n e h, ordered.0);
        ordered = ordered.1;
        logged = logged.1;
      } in
      elim (Bool-cases (leb max_depth d')) [
        | inl last ↦ rw last (
          log,
          popped,
          λ u e h. elim (settled u e h) [
            | inr followed ↦ inr followed
            | inl waiting ↦ elim (Bool-cases (str_eq v u)) [
              | inl same ↦ inr (λ deep w edge. absurd (ground (arith, eq_iff v u)))
              | inr other ↦ inl (ground (arith, ap (waits u) front))
            ]
          ],
          omega (arith, shorter),
        )
        | inr deep ↦
            let round =
              visit-IsVisited g max_depth root d' v (neighbors v g) (record s { queue = rest }) log
                popped (ground arith) logged.0 (λ w h. h) in
            rw deep (
              round.log',
              round.search,
              λ u e h. elim (round.logged_waits u e h) [
                | inr waiting ↦ inl waiting
                | inl before ↦ elim (settled u e before) [
                  | inl waiting ↦ elim (Bool-cases (str_eq v u)) [
                    | inl same ↦ inr (λ _ w edge.
                        let named = (eq_iff v u).0 same in
                        let at = subst (λ x. depth_of x log ≡ some d') named logged.0 in
                        let edge' =
                          subst (λ x. contains w (neighbors x g) ≡ true) (sym named) edge in
                        let (k, found, le) = round.met w edge' in
                        let depth : d' ≡ e = ground arith in (k, found, omega (arith, depth)))
                    | inr other ↦ inl (round.waiting u (ground (arith, ap (waits u) front)))
                  ]
                  | inr followed ↦ inr (λ near w edge.
                      let (k, found, le) = followed near w edge in (k, round.grows w k found, le))
                ]
              ],
              omega (
                arith,
                shorter,
                weight-visit g d' (neighbors v g) (record s { queue = rest })
                    (λ w h. neighbors-targets v w g h),
              ),
            )
      ]

  blast_loop_lem :
      (root : String) (fuel d : ℕ) (s : BlastState) (log : Log)
      → IsSearch g max_depth root d s log
      → IsSettled s log
      → weight g s < fuel
      → (affected : List String) × (blast_loop g max_depth fuel s ≡ some affected)
        × IsRadius root affected
  unfolding blast_loop
  blast_loop_lem root zero d s log i settled enough = absurd (omega arith)
  blast_loop_lem root (suc fuel) d s log i settled enough = elim (Queue-cases s.queue) [
    | inl over ↦ (s.affected, rw over refl, finished root d s log i settled over)
    | inr (v, d', rest, front) ↦
        let (log', i', settled', less) = pop_lem root v d d' s rest log i settled front in
        let (affected, returned, radius) =
          blast_loop_lem root fuel d' (pop g max_depth v d' (record s { queue = rest })) log' i'
            settled' (omega arith) in
        (affected, rw front returned, radius)
  ]

-- The loop of `blast_radius` ends, and the services that it returns are those other than the root
-- that the calls lead to in at most `max_depth` steps.
pub blast_radius_lem :
    (root : String) (max_depth : ℕ) (g : DependencyGraph)
    → (affected : List String) × (blast_radius root max_depth g
        ≡ some (radius root max_depth affected))
      × ((n : String)
          → (contains n affected ≡ true)
            ↔ ((n ≢ root) × ((k : ℕ) × (k ≤ max_depth) × Walk g.forward root k n)))
unfolding blast_radius IsRadius IsSettled
blast_radius_lem root max_depth g =
    let start : IsSearch g.forward max_depth root 0 (blast_start root) ((root, 0) ∷ []) = record {
      agrees = λ n. ground arith;
      listed = λ n. ground (arith, eq_iff n root, eq_iff root n);
      rooted = ground (arith, eq_iff root root);
      reached = λ n e h. elim (Bool-cases (str_eq root n)) [
        | inl same ↦
            let least : 0 ≡ e = ground arith in
            subst (λ k. (k ≤ max_depth) × Walk g.forward root k n) least
              (omega arith, subst (λ x. Walk g.forward root 0 x) ((eq_iff root n).0 same) here)
        | inr other ↦ absurd (ground arith)
      ];
      near = λ n e h. ground arith;
      ordered = (omega arith, tt);
      logged = (ground (arith, eq_iff root root), tt);
    } in
    let few = length-filter (λ n. not (contains n (root ∷ []))) (targets g.forward) in
    let (affected, returned, exact) =
      blast_loop_lem g.forward max_depth root (length (targets g.forward) + 2) 0 (blast_start root)
        ((root, 0) ∷ []) start (λ u e h. inl (ground arith)) (omega (arith, few)) in
    let whole : blast_radius root max_depth g ≡ some (radius root max_depth affected) =
      ap (Option.map (radius root max_depth)) returned in
    (affected, whole, exact)
