-- ===== src/Topology/Route/Search.antt =====
-- The invariant of the loop of `critical_path`, and one turn of it.
use mathlib.Core.Path.{subst}
use becertain.Prelude.{
  ℕ, ◌+◌, ◌≤◌, String, true, false, ◌&&◌, List, ◌∷◌, ◌++◌, some, str_eq, contains, length, leb, All,
  All-imp, All-append, ◌≡◌, sym, ap, arith, eq_iff, ◌⊎◌, inl, inr, Bool-cases, Option-cases,
}
use becertain.Topology.Graph.{Adjacency, neighbors}
use becertain.Topology.Blast.{Log, depth_of, is_some}
use becertain.Topology.Route.{PathState, last, extensions, extend_path}
use becertain.Topology.Route.Paths.{
  offers, IsOrdered, offers-append, IsOrdered-append, IsRoute, extensions-length,
  extensions-IsRoute, offers-extensions,
}

module _ (g : Adjacency) (source target : String) where
  -- `w` was taken from the queue by a path of at most `m` services, or such a path is in the queue.
  unfoldable pub IsMet : PathState → Log → String → ℕ → Type 0
  IsMet s log w m =
      ((e : ℕ) × (depth_of w log ≡ some e) × (e ≤ m)) ⊎ (offers source w m s.queue ≡ true)

  -- The log has the services seen, each with the length of the path by which it was taken; `d` is
  -- the length of the last one.
  pub record IsSearch (d : ℕ) (s : PathState) (log : Log) : Type 0 where
    pub agrees : (n : String) → contains n s.seen ≡ is_some (depth_of n log)
    pub past : (n : String) (e : ℕ) → depth_of n log ≡ some e → e ≤ d
    pub routes : All (λ path. IsRoute g source (last source path) path) s.queue
    pub ordered : IsOrdered d s.queue
    pub near : All (λ path. length path ≤ d + 1) s.queue
    pub closed :
        (u w : String) (e : ℕ)
        → depth_of u log ≡ some e
        → contains w (neighbors u g) ≡ true
        → IsMet s log w (e + 1)
    pub started : IsMet s log source 1
    pub searching : contains target s.seen ≡ false

  -- Taking a path from the queue keeps what was met, once its end is in the log.
  IsMet-pop :
      (d m : ℕ) (path : List String) (rest : List (List String)) (s s' : PathState) (log log' : Log)
      (w : String)
      → s.queue ≡ path ∷ rest
      → ((n : String) (e : ℕ) → depth_of n log ≡ some e → depth_of n log' ≡ some e)
      → ((e : ℕ) × (depth_of (last source path) log' ≡ some e) × (e ≤ length path))
      → ((v : String) (k : ℕ) → offers source v k rest ≡ true → offers source v k s'.queue ≡ true)
      → IsMet s log w m
      → IsMet s' log' w m
  unfolding IsMet
  IsMet-pop d m path rest s s' log log' w front grows taken later (inl (e, found, le)) =
      inl (e, grows w e found, le)
  IsMet-pop d m path rest s s' log log' w front grows taken later (inr offered) =
      let (e, found, le) = taken in
      elim (Bool-cases (str_eq (last source path) w && leb (length path) m)) [
        | inl this ↦
            let named : last source path ≡ w = ground (arith, eq_iff (last source path) w) in
            inl (e, subst (λ x. depth_of x log' ≡ some e) named found, ground arith)
        | inr other ↦ inr (later w m (ground (arith, ap (offers source w m) front)))
      ]

  pub extend-IsSearch :
      (d : ℕ) (path : List String) (rest : List (List String)) (s : PathState) (log : Log)
      → IsSearch d s log
      → s.queue ≡ path ∷ rest
      → str_eq (last source path) target ≡ false
      → (log' : Log) × IsSearch
          (length path)
          (extend_path g source target path (record s { queue = rest }))
          log'
  unfolding IsMet
  extend-IsSearch d path rest s log i front apart =
      let node = last source path in
      let ordered = subst (IsOrdered d) front i.ordered in
      let routes = subst (All (λ p. IsRoute g source (last source p) p)) front i.routes in
      let near = subst (All (λ p. length p ≤ d + 1)) front i.near in
      let near' =
        All-imp _ (λ p. length p ≤ length path + 1) rest (λ p h. omega (arith, h, ordered.0))
          near.1 in
      elim (Bool-cases (contains node s.seen)) [
        | inl old ↦ elim (Option-cases (depth_of node log)) [
          | inl missing ↦ absurd (ground (arith, i.agrees node))
          | inr (e, found) ↦
              let taken : (e : ℕ) × (depth_of node log ≡ some e) × (e ≤ length path) =
                (e, found, omega (arith, i.past node e found, ordered.0)) in
              rw old (
                log,
                record {
                  agrees = i.agrees;
                  past = λ n k h. omega (arith, i.past n k h, ordered.0);
                  routes = routes.1;
                  ordered = ordered.1;
                  near = near';
                  closed = λ u w k h edge.
                      IsMet-pop d (k + 1) path rest s (record s { queue = rest }) log log w front
                        (λ n j h. h) taken (λ v j h. h) (i.closed u w k h edge);
                  started =
                      IsMet-pop d 1 path rest s (record s { queue = rest }) log log source front
                        (λ n j h. h) taken (λ v j h. h) i.started;
                  searching = i.searching;
                },
              )
        ]
        | inr new ↦
            let log1 = (node, length path) ∷ log in
            let ns = neighbors node g in
            let s1 : PathState = record {
              seen = node ∷ s.seen;
              queue = rest ++ extensions path ns;
            } in
            let grows : (n : String) (e : ℕ) → depth_of n log ≡ some e → depth_of n log1 ≡ some e =
              λ n e h. ground (arith, i.agrees node, eq_iff node n) in
            let taken : (e : ℕ) × (depth_of node log1 ≡ some e) × (e ≤ length path) =
              (length path, ground (arith, eq_iff node node), omega arith) in
            let later : (v : String) (k : ℕ)
                → offers source v k rest ≡ true
                → offers source v k (rest ++ extensions path ns) ≡ true =
              λ v k h. ground (arith, offers-append source v k rest (extensions path ns)) in
            rw new (
              log1,
              record {
                agrees = λ n. ground (arith, i.agrees n);
                past = λ n e h. ground (arith, i.past n e, ordered.0);
                routes =
                    All-append _ rest (extensions path ns) routes.1
                      (extensions-IsRoute g source path ns routes.0 (λ w h. h));
                ordered =
                    IsOrdered-append (length path) (length path + 1) rest (extensions path ns)
                      ordered.1 near' (extensions-length g source path ns) (omega arith);
                near = All-append _ rest (extensions path ns) near' (
                    All-imp _ _ (extensions path ns) (λ p h. omega (arith, h))
                      (extensions-length g source path ns));
                closed = λ u w e h edge. elim (Bool-cases (str_eq node u)) [
                  | inl same ↦
                      let edge' =
                        subst (λ x. contains w (neighbors x g) ≡ true)
                          (sym ((eq_iff node u).0 same)) edge in
                      inr (
                        ground (
                          arith,
                          offers-append source w (e + 1) rest (extensions path ns),
                          offers-extensions g source w path ns edge',
                        ))
                  | inr other ↦
                      IsMet-pop d (e + 1) path rest s s1 log log1 w front grows taken later
                        (i.closed u w e (ground arith) edge)
                ];
                started =
                    IsMet-pop d 1 path rest s s1 log log1 source front grows taken later i.started;
                searching = ground (arith, i.searching);
              },
            )
      ]
