-- ===== src/Topology/Blast/Visit.antt =====
-- One turn of the loop of `blast_radius`.
use mathlib.Core.Path.{subst}
use becertain.Prelude.{
  ℕ, ◌+◌, ◌≤◌, ◌<◌, String, true, false, ◌||◌, List, [], ◌∷◌, ◌++◌, some, str_eq, contains, All,
  All-imp, All-append, ◌≡◌, arith, eq_iff, ◌⊎◌, inl, inr, Bool-cases, Option-cases,
}
use becertain.Topology.Graph.{Adjacency, neighbors, BlastState, push, visit}
use becertain.Topology.Blast.{Walk, Log, depth_of, IsOrdered, waits, IsSearch}
use becertain.Topology.Blast.Walk.{step}

contains-append :
    (n : String) (xs : List String) (x : String)
    → contains n (xs ++ (x ∷ [])) ≡ (contains n xs || str_eq x n)
contains-append n [] x = ground arith
contains-append n (y ∷ xs) x = ground (arith, contains-append n xs x)

IsOrdered-append :
    (n : String) (d e : ℕ) (queue : List (String × ℕ))
    → IsOrdered d queue
    → All (λ entry. entry.1 ≤ e) queue
    → d ≤ e
    → IsOrdered d (queue ++ ((n, e) ∷ []))
IsOrdered-append n d e [] o h le = (le, tt)
IsOrdered-append n d e ((m, k) ∷ queue) o h le = (o.0, IsOrdered-append n k e queue o.1 h.1 h.0)

waits-append :
    (u n : String) (d : ℕ) (queue : List (String × ℕ))
    → waits u (queue ++ ((n, d) ∷ [])) ≡ (waits u queue || str_eq n u)
waits-append u n d [] = ground arith
waits-append u n d ((m, k) ∷ queue) = ground (arith, waits-append u n d queue)

module _ (g : Adjacency) (max_depth : ℕ) (root : String) where
  push-IsSearch :
      (d : ℕ) (s : BlastState) (log : Log) (v n : String)
      → IsSearch g max_depth root d s log
      → d < max_depth
      → depth_of v log ≡ some d
      → contains n (neighbors v g) ≡ true
      → contains n s.seen ≡ false
      → IsSearch g max_depth root d (push n d s) ((n, d + 1) ∷ log)
  push-IsSearch d s log v n i deep at edge new = record {
    agrees = λ m. ground (arith, i.agrees m);
    listed = λ m. ground (
      arith,
      i.listed m,
      contains-append m s.affected n,
      i.rooted,
      i.agrees root,
      eq_iff m root,
      eq_iff n m,
      eq_iff n root,
    );
    rooted = ground (arith, i.rooted, i.agrees root, eq_iff n root);
    reached = λ m e h. extended m e h;
    near = λ m e h. ground (arith, i.near m e);
    ordered =
        IsOrdered-append n d (d + 1) s.queue i.ordered
          (All-imp _ _ s.queue (λ entry h. i.near entry.0 entry.1 h) i.logged) (omega arith);
    logged =
        All-append _ s.queue ((n, d + 1) ∷ [])
          (All-imp _ _ s.queue (λ entry h. kept entry.0 entry.1 h) i.logged)
          (ground (arith, eq_iff n n), tt);
  }
    where
      kept : (m : String) (e : ℕ) → depth_of m log ≡ some e → depth_of m ((n, d + 1) ∷ log) ≡ some e
      kept m e h = ground (arith, i.agrees n, eq_iff n m)

      extended :
          (m : String) (e : ℕ)
          → depth_of m ((n, d + 1) ∷ log) ≡ some e
          → (e ≤ max_depth) × Walk g root e m
      extended m e h = elim (Bool-cases (str_eq n m)) [
        | inl same ↦
            let walk : Walk g root (d + 1) n = step d v n (i.reached v d at).1 edge in
            let far : d + 1 ≡ e = ground arith in
            subst (λ x. (e ≤ max_depth) × Walk g root e x) ((eq_iff n m).0 same)
              (subst (λ k. (k ≤ max_depth) × Walk g root k n) far (omega arith, walk))
        | inr other ↦ i.reached m e (rw other at h)
      ]

  -- The log only grows.
  unfoldable pub Extends : Log → Log → Type 0
  Extends log log' = (m : String) (e : ℕ) → depth_of m log ≡ some e → depth_of m log' ≡ some e

  push-Extends :
      (d : ℕ) (s : BlastState) (log : Log) (n : String)
      → IsSearch g max_depth root d s log
      → contains n s.seen ≡ false
      → Extends log ((n, d + 1) ∷ log)
  unfolding Extends
  push-Extends d s log n i new m e h = ground (arith, i.agrees n, eq_iff n m)

  -- What a round over some of the neighbours of `v` gives.
  pub record IsVisited (d : ℕ) (v : String) (ns : List String) (s : BlastState) (log : Log)
      (s' : BlastState) : Type 0 where
    pub log' : Log
    pub search : IsSearch g max_depth root d s' log'
    pub grows : Extends log log'
    pub met :
        (w : String) → contains w ns ≡ true → (e : ℕ) × (depth_of w log' ≡ some e) × (e ≤ d + 1)
    pub waiting : (u : String) → waits u s.queue ≡ true → waits u s'.queue ≡ true
    pub logged_waits :
        (u : String) (e : ℕ)
        → depth_of u log' ≡ some e
        → (depth_of u log ≡ some e) ⊎ (waits u s'.queue ≡ true)

  pub visit-IsVisited :
      (d : ℕ) (v : String) (ns : List String) (s : BlastState) (log : Log)
      → IsSearch g max_depth root d s log
      → d < max_depth
      → depth_of v log ≡ some d
      → ((w : String) → contains w ns ≡ true → contains w (neighbors v g) ≡ true)
      → IsVisited d v ns s log (visit d ns s)
  unfolding Extends
  visit-IsVisited d v [] s log i deep at edges = record {
    log' = log;
    search = i;
    grows = λ m e h. h;
    met = λ w h. absurd (ground arith);
    waiting = λ u h. h;
    logged_waits = λ u e h. inl h;
  }
  visit-IsVisited d v (n ∷ ns) s log i deep at edges = elim (Bool-cases (contains n s.seen)) [
    | inl old ↦
        let next = visit-IsVisited d v ns s log i deep at (λ w h. edges w (ground (arith))) in
        rw old (record {
          log' = next.log';
          search = next.search;
          grows = next.grows;
          met = λ w h. elim (Bool-cases (str_eq n w)) [
            | inl same ↦ elim (Option-cases (depth_of n log)) [
              | inl missing ↦ absurd (ground (arith, i.agrees n))
              | inr (k, found) ↦
                  let there = subst (λ x. depth_of x log ≡ some k) ((eq_iff n w).0 same) found in
                  (k, next.grows w k there, i.near n k found)
            ]
            | inr other ↦ next.met w (ground arith)
          ];
          waiting = next.waiting;
          logged_waits = next.logged_waits;
        })
    | inr new ↦
        let edge = edges n (ground (arith, eq_iff n n)) in
        let i' = push-IsSearch d s log v n i deep at edge new in
        let log1 = (n, d + 1) ∷ log in
        let grown = push-Extends d s log n i new in
        let next =
          visit-IsVisited d v ns (push n d s) log1 i' deep (grown v d at)
            (λ w h. edges w (ground arith)) in
        rw new (record {
          log' = next.log';
          search = next.search;
          grows = λ m e h. next.grows m e (grown m e h);
          met = λ w h. elim (Bool-cases (str_eq n w)) [
            | inl same ↦ (d + 1, next.grows w (d + 1) (ground arith), omega arith)
            | inr other ↦ next.met w (ground arith)
          ];
          waiting = λ u h. next.waiting u (ground (arith, waits-append u n (d + 1) s.queue));
          logged_waits = λ u e h. elim (next.logged_waits u e h) [
            | inr w ↦ inr w
            | inl k ↦ elim (Bool-cases (str_eq n u)) [
              | inl same ↦ inr (next.waiting u (ground (arith, waits-append u n (d + 1) s.queue)))
              | inr other ↦ inl (ground arith)
            ]
          ];
        })
  ]
