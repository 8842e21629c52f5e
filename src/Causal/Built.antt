-- ===== src/Causal/Built.antt =====
-- What `add_edge` keeps, and the nodes of a graph that it built.
use mathlib.Core.Path.{subst}
use becertain.Prelude.{
  ℕ, ◌+◌, ◌≤◌, String, true, false, ◌||◌, List, [], ◌∷◌, ◌++◌, none, if◌then◌else◌, str_eq, eq_iff,
  contains, ◌≡◌, refl, arith, inl, inr, Bool-cases,
}
use becertain.Store.Client.{lookup}
use becertain.Store.Client.Bounds.{HasUniqueKeys}
use becertain.Causal.Graph.{
  CausalEdge, CausalGraph, Forward, append_edge, add_edge, insert_node, add_causes, add_effects,
}
use becertain.Causal.Counts.{count, rest, contains-append}
use becertain.Causal.Release.{IsUnique, IsUnique-append}

contains-insert_node :
    (m n : String) (ns : List String)
    → contains m (insert_node n ns) ≡ (contains m ns || str_eq n m)
contains-insert_node m n ns = elim (Bool-cases (contains n ns)) [
  | inl old ↦ elim (Bool-cases (str_eq n m)) [
    | inl same ↦
        let there = subst (λ x. contains x ns ≡ true) ((eq_iff n m).0 same) old in
        rw old (ground arith)
    | inr other ↦ rw old (ground arith)
  ]
  | inr new ↦ rw new (contains-append m n ns)
]

IsUnique-insert_node : (n : String) (ns : List String) → IsUnique ns → IsUnique (insert_node n ns)
IsUnique-insert_node n ns u = elim (Bool-cases (contains n ns)) [
  | inl old ↦ rw old u
  | inr new ↦ rw new (IsUnique-append n ns u new)
]

module _ {F : Type 0} where
  abbrev pub add_edges : List (CausalEdge F) → CausalGraph F → CausalGraph F
  add_edges [] g = g
  add_edges (e ∷ es) g = add_edges es (add_edge e g)

  pub rest_le : (m : String) (placed : List String) (g : Forward F) → rest m placed g ≤ rest m [] g
  rest_le m placed [] = omega arith
  rest_le m placed ((c, es) ∷ g) = ground (arith, rest_le m placed g)

  abbrev one : String → CausalEdge F → ℕ
  one m e = if str_eq e.effect m then 1 else 0

  count-append :
      (m : String) (e : CausalEdge F) (es : List (CausalEdge F))
      → count m (es ++ (e ∷ [])) ≡ count m es + one m e
  count-append m e [] = omega arith
  count-append m e (x ∷ es) = omega (arith, count-append m e es)

  rest-append_edge :
      (m n : String) (e : CausalEdge F) (g : Forward F)
      → rest m [] (append_edge n e g) ≡ rest m [] g + one m e
  rest-append_edge m n e [] = omega arith
  rest-append_edge m n e ((c, es) ∷ g) = elim (Bool-cases (str_eq c n)) [
    | inl same ↦ rw same (omega (arith, count-append m e es))
    | inr other ↦ rw other (omega (arith, rest-append_edge m n e g))
  ]

  lookup-append_edge :
      (j n : String) (e : CausalEdge F) (g : Forward F)
      → str_eq n j ≡ false
      → lookup j g ≡ none
      → lookup j (append_edge n e g) ≡ none
  lookup-append_edge j n e [] apart h = ground arith
  lookup-append_edge j n e ((c, es) ∷ g) apart h = ground (arith, lookup-append_edge j n e g)

  HasUniqueKeys-append_edge :
      (n : String) (e : CausalEdge F) (g : Forward F)
      → HasUniqueKeys g
      → HasUniqueKeys (append_edge n e g)
  HasUniqueKeys-append_edge n e [] u = (refl, tt)
  HasUniqueKeys-append_edge n e ((c, es) ∷ g) u = elim (Bool-cases (str_eq c n)) [
    | inl same ↦ rw same u
    | inr other ↦ rw other (
      lookup-append_edge c n e g (ground (arith, eq_iff c n, eq_iff n c)) u.0,
      HasUniqueKeys-append_edge n e g u.1,
    )
  ]

  -- What `add_edge` keeps.
  pub record IsBuilt (g : CausalGraph F) : Type 0 where
    pub unique_keys : HasUniqueKeys g.forward
    pub both : (m : String) → rest m [] g.forward ≡ count m g.edges

  pub add_edges-IsBuilt :
      (es : List (CausalEdge F)) (g : CausalGraph F) → IsBuilt g → IsBuilt (add_edges es g)
  unfolding add_edge
  add_edges-IsBuilt [] g i = i
  add_edges-IsBuilt (e ∷ es) g i = add_edges-IsBuilt es (add_edge e g) (record {
    unique_keys = HasUniqueKeys-append_edge e.cause e g.forward i.unique_keys;
    both = λ m.
        omega (arith, rest-append_edge m e.cause e g.forward, count-append m e g.edges, i.both m);
  })

  pub IsUnique-add_causes :
      (g : Forward F) (ns : List String) → IsUnique ns → IsUnique (add_causes g ns)
  IsUnique-add_causes [] ns u = u
  IsUnique-add_causes ((n, es) ∷ g) ns u =
      IsUnique-add_causes g (insert_node n ns) (IsUnique-insert_node n ns u)

  pub IsUnique-add_effects :
      (es : List (CausalEdge F)) (ns : List String) → IsUnique ns → IsUnique (add_effects es ns)
  IsUnique-add_effects [] ns u = u
  IsUnique-add_effects (e ∷ es) ns u =
      IsUnique-add_effects es (insert_node e.effect ns) (IsUnique-insert_node e.effect ns u)

  add_effects_keeps :
      (m : String) (es : List (CausalEdge F)) (ns : List String)
      → contains m ns ≡ true
      → contains m (add_effects es ns) ≡ true
  add_effects_keeps m [] ns h = h
  add_effects_keeps m (e ∷ es) ns h =
      add_effects_keeps m es (insert_node e.effect ns)
        (ground (arith, contains-insert_node m e.effect ns))

  pub contains-add_effects :
      (m : String) (es : List (CausalEdge F)) (ns : List String)
      → 1 ≤ count m es
      → contains m (add_effects es ns) ≡ true
  contains-add_effects m [] ns h = absurd (omega arith)
  contains-add_effects m (e ∷ es) ns h = elim (Bool-cases (str_eq e.effect m)) [
    | inl same ↦
        add_effects_keeps m es (insert_node e.effect ns)
          (ground (arith, contains-insert_node m e.effect ns))
    | inr other ↦ contains-add_effects m es (insert_node e.effect ns) (ground arith)
  ]
