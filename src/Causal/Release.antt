-- ===== src/Causal/Release.antt =====
-- The loop over the edges of a node: it lowers the degrees by these edges, and queues the nodes that
-- it leaves without any.
use mathlib.Core.Path.{subst}
use becertain.Prelude.{
  ◌+◌, ◌-◌, ◌≤◌, String, true, false, not, ◌&&◌, ◌||◌, List, [], ◌∷◌, ◌++◌, if◌then◌else◌, ◌==◌,
  str_eq, eq_iff, contains, append_assoc, ◌≡◌, refl, sym, ap, ◌∙◌, arith, inl, inr, Bool-cases,
}
use becertain.Causal.Graph.{CausalEdge, degree, SortState, lower, release}
use becertain.Causal.Counts.{degree-assign, count, contains-append}

abbrev pub IsUnique : List String → Type 0
IsUnique [] = Unit
IsUnique (x ∷ xs) = (contains x xs ≡ false) × IsUnique xs

pub IsUnique-append :
    (x : String) (xs : List String)
    → IsUnique xs
    → contains x xs ≡ false
    → IsUnique (xs ++ (x ∷ []))
IsUnique-append x [] u new = (refl, tt)
IsUnique-append x (y ∷ xs) u new = (
  ground (arith, contains-append y x xs, eq_iff x y, eq_iff y x),
  IsUnique-append x xs u.1 (ground arith),
)

-- The nodes that were placed or wait are distinct, and no edge into them is left.
pub record IsClear (s : SortState) : Type 0 where
  pub unique : IsUnique (s.order ++ s.queue)
  pub clear : (m : String) → contains m (s.order ++ s.queue) ≡ true → degree m s.in_degree ≡ 0

module _ {F : Type 0} where
  pub record IsReleased (es : List (CausalEdge F)) (s s' : SortState) : Type 0 where
    pub same_order : s'.order ≡ s.order
    pub lowered : (m : String) → degree m s.in_degree ≡ degree m s'.in_degree + count m es
    pub queued :
        (m : String)
        → contains m s'.queue
          ≡ (contains m s.queue || (not (count m es == 0) && (degree m s'.in_degree == 0)))
    pub still_clear : IsClear s'

  IsClear-lower :
      (e : CausalEdge F) (s : SortState)
      → 1 ≤ degree e.effect s.in_degree
      → IsClear s
      → IsClear (lower e s)
  IsClear-lower e s some_left i =
      let d = degree e.effect s.in_degree - 1 in
      let new : contains e.effect (s.order ++ s.queue) ≡ false =
        elim (Bool-cases (contains e.effect (s.order ++ s.queue))) [
          | inl old ↦ absurd (omega (arith, i.clear e.effect old, some_left))
          | inr fresh ↦ fresh
        ] in
      elim (Bool-cases (d == 0)) [
        | inl last ↦ rw last (record {
          unique =
              subst IsUnique (append_assoc s.order s.queue (e.effect ∷ []))
                (IsUnique-append e.effect (s.order ++ s.queue) i.unique new);
          clear = λ m h.
              let h' = ap (contains m) (append_assoc s.order s.queue (e.effect ∷ [])) ∙ h in
              ground (
                arith,
                i.clear m,
                contains-append m e.effect (s.order ++ s.queue),
                degree-assign m e.effect d s.in_degree,
              );
        })
        | inr more ↦ rw more (record {
          unique = i.unique;
          clear = λ m h. elim (Bool-cases (str_eq e.effect m)) [
            | inl same ↦
                let old =
                  subst (λ x. contains x (s.order ++ s.queue) ≡ true)
                    (sym ((eq_iff e.effect m).0 same)) h in
                absurd (ground arith)
            | inr other ↦ ground (arith, i.clear m h, degree-assign m e.effect d s.in_degree)
          ];
        })
      ]

  degree-lower :
      (k : String) (e : CausalEdge F) (s : SortState)
      → 1 ≤ degree e.effect s.in_degree
      → degree k s.in_degree ≡ degree k (lower e s).in_degree + (if str_eq e.effect k then 1 else 0)
  degree-lower k e s some_left =
      let d = degree e.effect s.in_degree - 1 in
      elim (Bool-cases (str_eq e.effect k)) [
        | inl same ↦
            let named = ap (λ x. degree x s.in_degree) ((eq_iff e.effect k).0 same) in
            ground (arith, degree-assign k e.effect d s.in_degree, named)
        | inr other ↦ ground (arith, degree-assign k e.effect d s.in_degree)
      ]

  contains-lower :
      (m : String) (e : CausalEdge F) (s : SortState)
      → contains m (lower e s).queue
        ≡ (contains m s.queue || (str_eq e.effect m && ((degree e.effect s.in_degree - 1) == 0)))
  contains-lower m e s = elim (Bool-cases ((degree e.effect s.in_degree - 1) == 0)) [
    | inl last ↦ rw last (contains-append m e.effect s.queue ∙ ground arith)
    | inr more ↦ rw more (ground arith)
  ]

  queued_step :
      (m : String) (e : CausalEdge F) (es : List (CausalEdge F)) (s s' : SortState)
      → 1 ≤ degree e.effect s.in_degree
      → degree m (lower e s).in_degree ≡ degree m s'.in_degree + count m es
      → contains m s'.queue
        ≡ (contains m (lower e s).queue || (not (count m es == 0) && (degree m s'.in_degree == 0)))
      → contains m s'.queue
        ≡ (contains m s.queue || (not (count m (e ∷ es) == 0) && (degree m s'.in_degree == 0)))
  queued_step m e es s s' some_left lowered queued =
      let before = contains-lower m e s in
      let d = degree e.effect s.in_degree - 1 in
      let assigned = degree-assign m e.effect d s.in_degree in
      elim (Bool-cases (str_eq e.effect m)) [
        | inl same ↦ ground (arith, before, assigned, lowered, queued)
        | inr other ↦ ground (arith, before, assigned, lowered, queued)
      ]

  pub release-IsReleased :
      (es : List (CausalEdge F)) (s : SortState)
      → ((k : String) → count k es ≤ degree k s.in_degree)
      → IsClear s
      → IsReleased es s (release es s)
  release-IsReleased [] s enough i = record {
    same_order = refl;
    lowered = λ m. omega arith;
    queued = λ m. ground arith;
    still_clear = i;
  }
  release-IsReleased (e ∷ es) s enough i =
      let d = degree e.effect s.in_degree - 1 in
      let some_left : 1 ≤ degree e.effect s.in_degree =
        ground (arith, enough e.effect, eq_iff e.effect e.effect) in
      let after : (k : String)
          → degree k s.in_degree
            ≡ degree k (lower e s).in_degree + (if str_eq e.effect k then 1 else 0) =
        λ k. degree-lower k e s some_left in
      let next =
        release-IsReleased es (lower e s) (λ k. omega (arith, enough k, after k))
          (IsClear-lower e s some_left i) in
      record {
        same_order = next.same_order;
        lowered = λ m. omega (arith, after m, next.lowered m);
        queued = λ m.
            queued_step m e es s (release es (lower e s)) some_left (next.lowered m)
              (next.queued m);
        still_clear = next.still_clear;
      }
