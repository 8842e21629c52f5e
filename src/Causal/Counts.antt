-- ===== src/Causal/Counts.antt =====
-- What the degrees count: the edges into a node whose causes are not placed yet.
use mathlib.Core.Path.{subst}
use becertain.Prelude.{
  ℕ, ◌+◌, String, false, ◌||◌, List, [], ◌∷◌, ◌++◌, none, if◌then◌else◌, str_eq, eq_iff, contains,
  ◌≡◌, refl, sym, ap, arith, inl, inr, Bool-cases,
}
use becertain.Store.Client.{lookup, assign}
use becertain.Store.Client.Bounds.{HasUniqueKeys, lookup-assign}
use becertain.Causal.Graph.{
  CausalEdge, Forward, edges_from, Degrees, degree, zero_degrees, count_edges, count_all,
}

pub degree-assign :
    (m n : String) (v : ℕ) (d : Degrees)
    → degree m (assign n v d) ≡ (if str_eq n m then v else degree m d)
degree-assign m n v d = ground (arith, lookup-assign m n v d)

pub degree-zero_degrees : (m : String) (ns : List String) → degree m (zero_degrees ns) ≡ 0
degree-zero_degrees m [] = refl
degree-zero_degrees m (n ∷ ns) = ground (arith, degree-zero_degrees m ns)

pub contains-append :
    (n x : String) (xs : List String) → contains n (xs ++ (x ∷ [])) ≡ (contains n xs || str_eq x n)
contains-append n x [] = ground arith
contains-append n x (y ∷ xs) = ground (arith, contains-append n x xs)

module _ {F : Type 0} where
  -- The edges into `m`.
  abbrev pub count : String → List (CausalEdge F) → ℕ
  count m [] = 0
  count m (e ∷ es) = (if str_eq e.effect m then 1 else 0) + count m es

  abbrev pub rest : String → List String → Forward F → ℕ
  rest m placed [] = 0
  rest m placed ((c, es) ∷ g) = (if contains c placed then 0 else count m es) + rest m placed g

  degree-count_edges :
      (m : String) (es : List (CausalEdge F)) (d : Degrees)
      → degree m (count_edges es d) ≡ degree m d + count m es
  degree-count_edges m [] d = omega arith
  degree-count_edges m (e ∷ es) d =
      let next = degree-count_edges m es (assign e.effect (degree e.effect d + 1) d) in
      let one = degree-assign m e.effect (degree e.effect d + 1) d in
      elim (Bool-cases (str_eq e.effect m)) [
        | inl same ↦
            let named = ap (λ x. degree x d) ((eq_iff e.effect m).0 same) in
            ground (arith, next, one, named)
        | inr other ↦ ground (arith, next, one)
      ]

  pub degree-count_all :
      (m : String) (g : Forward F) (d : Degrees)
      → degree m (count_all g d) ≡ degree m d + rest m [] g
  degree-count_all m [] d = omega arith
  degree-count_all m ((c, es) ∷ g) d =
      omega (arith, degree-count_all m g (count_edges es d), degree-count_edges m es d)

  rest-absent :
      (m node : String) (placed : List String) (g : Forward F)
      → lookup node g ≡ none
      → rest m (placed ++ (node ∷ [])) g ≡ rest m placed g
  rest-absent m node placed [] h = refl
  rest-absent m node placed ((c, es) ∷ g) h = ground (
    arith,
    rest-absent m node placed g,
    contains-append c node placed,
    eq_iff c node,
    eq_iff node c,
  )

  -- Placing a node takes its edges away from what is left.
  pub rest-place :
      (m node : String) (placed : List String) (g : Forward F)
      → HasUniqueKeys g
      → contains node placed ≡ false
      → rest m placed g ≡ rest m (placed ++ (node ∷ [])) g + count m (edges_from node g)
  rest-place m node placed [] u new = omega arith
  rest-place m node placed ((c, es) ∷ g) u new = elim (Bool-cases (str_eq c node)) [
    | inl same ↦
        let named = (eq_iff c node).0 same in
        let apart = subst (λ x. lookup x g ≡ none) named u.0 in
        let new' = subst (λ x. contains x placed ≡ false) (sym named) new in
        ground
          (arith, rest-absent m node placed g apart, contains-append c node placed, eq_iff node c)
    | inr other ↦ ground (
      arith,
      rest-place m node placed g u.1 new,
      contains-append c node placed,
      eq_iff c node,
      eq_iff node c,
    )
  ]
