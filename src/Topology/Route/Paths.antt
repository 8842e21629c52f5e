-- ===== src/Topology/Route/Paths.antt =====
-- Paths of calls, and what the queue of `critical_path` holds.
use mathlib.Core.Path.{subst}
use becertain.Prelude.{
  ℕ, suc, ◌+◌, ◌≤◌, String, Bool, true, false, ◌&&◌, ◌||◌, List, [], ◌∷◌, ◌++◌, str_eq, contains,
  length, length-append, leb, All, ◌≡◌, sym, refl, ap, arith, eq_iff, inl, inr, Bool-cases,
}
use becertain.Topology.Graph.{Adjacency, neighbors}
use becertain.Topology.Route.{last, extensions}

pub last-append : (d n : String) (path : List String) → last d (path ++ (n ∷ [])) ≡ n
last-append d n [] = refl
last-append d n (m ∷ path) = last-append m n path

-- A path of the queue leads to `w` and has at most `m` services.
abbrev pub offers : String → String → ℕ → List (List String) → Bool
offers source w m [] = false
offers source w m (path ∷ queue) =
    (str_eq (last source path) w && leb (length path) m) || offers source w m queue

-- The lengths do not fall along the queue.
abbrev pub IsOrdered : ℕ → List (List String) → Type 0
IsOrdered d [] = Unit
IsOrdered d (path ∷ queue) = (d ≤ length path) × IsOrdered (length path) queue

pub offers-append :
    (source w : String) (m : ℕ) (queue queue' : List (List String))
    → offers source w m (queue ++ queue') ≡ (offers source w m queue || offers source w m queue')
offers-append source w m [] queue' = refl
offers-append source w m (path ∷ queue) queue' =
    ground (arith, offers-append source w m queue queue')

pub IsOrdered-append :
    (d e : ℕ) (queue queue' : List (List String))
    → IsOrdered d queue
    → All (λ path. length path ≤ e) queue
    → All (λ path. length path ≡ e) queue'
    → d ≤ e
    → IsOrdered d (queue ++ queue')
IsOrdered-append d e [] [] o near same le = tt
IsOrdered-append d e [] (path ∷ queue') o near same le = (
  omega (arith, same.0),
  IsOrdered-append (length path) e [] queue' tt tt same.1 (omega (arith, same.0)),
)
IsOrdered-append d e (path ∷ queue) queue' o near same le =
    (o.0, IsOrdered-append (length path) e queue queue' o.1 near.1 same near.0)

-- The first path of an ordered queue is a shortest one.
pub offers_first :
    (source w : String) (m d : ℕ) (path : List String) (queue : List (List String))
    → IsOrdered d (path ∷ queue)
    → offers source w m (path ∷ queue) ≡ true
    → length path ≤ m
offers_first source w m d path [] o h = ground arith
offers_first source w m d path (next ∷ queue) o h =
    elim (Bool-cases (offers source w m (next ∷ queue))) [
      | inl later ↦ omega (arith, o.1.0, offers_first source w m (length path) next queue o.1 later)
      | inr first ↦ ground arith
    ]

pub offers_more :
    (source w : String) (m m' : ℕ) (queue : List (List String))
    → m ≤ m'
    → offers source w m queue ≡ true
    → offers source w m' queue ≡ true
offers_more source w m m' [] le h = h
offers_more source w m m' (path ∷ queue) le h = ground (arith, offers_more source w m m' queue le)

module _ (g : Adjacency) (source : String) where
  -- Every service of the path calls the next one.
  abbrev pub IsChain : String → List String → Type 0
  IsChain n [] = Unit
  IsChain n (m ∷ ms) = (contains m (neighbors n g) ≡ true) × IsChain m ms

  -- The path leads from the source to `n`.
  abbrev pub IsRoute : String → List String → Type 0
  IsRoute n path =
      (rest : List String) × (path ≡ source ∷ rest) × IsChain source rest × (last source rest ≡ n)

  IsChain-append :
      (a n : String) (path : List String)
      → IsChain a path
      → contains n (neighbors (last a path) g) ≡ true
      → IsChain a (path ++ (n ∷ []))
  IsChain-append a n [] chain edge = (edge, tt)
  IsChain-append a n (m ∷ path) chain edge = (chain.0, IsChain-append m n path chain.1 edge)

  pub IsRoute-append :
      (v n : String) (path : List String)
      → IsRoute v path
      → contains n (neighbors v g) ≡ true
      → IsRoute n (path ++ (n ∷ []))
  IsRoute-append v n path route edge =
      let (rest, starts, chain, ends) = route in
      (
        rest ++ (n ∷ []),
        ap (λ p. p ++ (n ∷ [])) starts,
        IsChain-append source n rest chain
            (subst (λ x. contains n (neighbors x g) ≡ true) (sym ends) edge),
        last-append source n rest,
      )

  pub extensions-length :
      (path ns : List String) → All (λ p. length p ≡ length path + 1) (extensions path ns)
  extensions-length path [] = tt
  extensions-length path (n ∷ ns) =
      (omega (arith, length-append path (n ∷ [])), extensions-length path ns)

  pub extensions-IsRoute :
      (path ns : List String)
      → IsRoute (last source path) path
      → ((w : String) → contains w ns ≡ true → contains w (neighbors (last source path) g) ≡ true)
      → All (λ p. IsRoute (last source p) p) (extensions path ns)
  extensions-IsRoute path [] route edges = tt
  extensions-IsRoute path (n ∷ ns) route edges = (
    subst (λ x. IsRoute x (path ++ (n ∷ []))) (sym (last-append source n path))
        (IsRoute-append (last source path) n path route (edges n (ground (arith, eq_iff n n)))),
    extensions-IsRoute path ns route (λ w h. edges w (ground arith)),
  )

  pub offers-extensions :
      (w : String) (path ns : List String)
      → contains w ns ≡ true
      → offers source w (length path + 1) (extensions path ns) ≡ true
  offers-extensions w path [] h = absurd (ground arith)
  offers-extensions w path (n ∷ ns) h =
      ground
        (arith, offers-extensions w path ns, last-append source n path, length-append path (n ∷ []))

pub length-extensions : (path ns : List String) → length (extensions path ns) ≡ length ns
length-extensions path [] = refl
length-extensions path (n ∷ ns) = ap suc (length-extensions path ns)
