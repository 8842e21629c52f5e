-- ===== src/Causal/Order.antt =====
-- The loop of `topological_sort` ends; what it places, and in which order.
use mathlib.Core.Path.{subst}
use becertain.Prelude.{
  ℕ, ◌+◌, ◌≤◌, String, Bool, true, false, not, ◌&&◌, ◌||◌, List, [], ◌∷◌, ◌++◌, ◌==◌, str_eq,
  eq_iff, contains, filter, length, append_assoc, append_nil, ◌≡◌, refl, sym, ap, ◌∙◌, arith, inl,
  inr, Bool-cases,
}
use becertain.Store.Client.Bounds.{HasUniqueKeys}
use becertain.Causal.Graph.{Forward, edges_from, degree, SortState, release}
use becertain.Causal.Counts.{count, rest, rest-place, contains-append}
use becertain.Causal.Release.{IsUnique, IsClear, IsReleased, release-IsReleased}

pub contains-append_lists :
    (n : String) (xs ys : List String) → contains n (xs ++ ys) ≡ (contains n xs || contains n ys)
contains-append_lists n [] ys = refl
contains-append_lists n (x ∷ xs) ys = ground (arith, contains-append_lists n xs ys)

IsUnique-middle :
    (x : String) (xs ys : List String) → IsUnique (xs ++ (x ∷ ys)) → contains x xs ≡ false
IsUnique-middle x [] ys u = refl
IsUnique-middle x (y ∷ xs) ys u = ground (
  arith,
  IsUnique-middle x xs ys u.1,
  u.0,
  contains-append_lists y xs (x ∷ ys),
  eq_iff x y,
  eq_iff y x,
)

abbrev pub unplaced : List String → List String → ℕ
unplaced order nodes = length (filter (λ n. not (contains n order)) nodes)

unplaced_more :
    (x : String) (order nodes : List String)
    → unplaced (order ++ (x ∷ [])) nodes ≤ unplaced order nodes
unplaced_more x order [] = omega arith
unplaced_more x order (n ∷ nodes) =
    ground (arith, unplaced_more x order nodes, contains-append n x order)

unplaced_fewer :
    (x : String) (order nodes : List String)
    → contains x nodes ≡ true
    → contains x order ≡ false
    → unplaced (order ++ (x ∷ [])) nodes + 1 ≤ unplaced order nodes
unplaced_fewer x order [] h new = absurd (ground arith)
unplaced_fewer x order (n ∷ nodes) h new = elim (Bool-cases (str_eq n x)) [
  | inl same ↦
      let new' = subst (λ y. contains y order ≡ false) (sym ((eq_iff n x).0 same)) new in
      ground (arith, unplaced_more x order nodes, contains-append n x order, eq_iff n x, eq_iff x n)
  | inr other ↦
      ground
        (arith, unplaced_fewer x order nodes, contains-append n x order, eq_iff n x, eq_iff x n)
]

chosen_step :
    (o q n : Bool) (r r' k : ℕ)
    → r ≡ r' + k
    → (o || q) ≡ (n && (r == 0))
    → (1 ≤ r → n ≡ true)
    → (o || (q || (not (k == 0) && (r' == 0)))) ≡ (n && (r' == 0))
chosen_step true q true r r' k e h there = ground arith
chosen_step true q false r r' k e h there = absurd (ground arith)
chosen_step false true true r r' k e h there = ground arith
chosen_step false true false r r' k e h there = absurd (ground arith)
chosen_step false false true r r' k e h there = ground arith
chosen_step false false false r r' k e h there = ground (arith, there)

module _ {F : Type 0} (g : Forward F) where
  -- Every edge into a node of the list has its cause among those placed before it.
  abbrev pub IsForward : List String → List String → Type 0
  IsForward placed [] = Unit
  IsForward placed (n ∷ ns) = (rest n placed g ≡ 0) × IsForward (placed ++ (n ∷ [])) ns

  IsForward-append :
      (x : String) (placed ns : List String)
      → IsForward placed ns
      → rest x (placed ++ ns) g ≡ 0
      → IsForward placed (ns ++ (x ∷ []))
  IsForward-append x placed [] f h = (ap (λ p. rest x p g) (sym (append_nil placed)) ∙ h, tt)
  IsForward-append x placed (n ∷ ns) f h = (
    f.0,
    IsForward-append x (placed ++ (n ∷ [])) ns f.1
        (ap (λ p. rest x p g) (append_assoc placed (n ∷ []) ns) ∙ h),
  )

  module _ (nodes : List String) where
    pub record IsSorting (s : SortState) : Type 0 where
      pub clear : IsClear s
      pub left : (m : String) → degree m s.in_degree ≡ rest m s.order g
      pub chosen :
          (m : String)
          → contains m (s.order ++ s.queue) ≡ (contains m nodes && (rest m s.order g == 0))
      pub forward : IsForward [] s.order

    module _ (unique_keys : HasUniqueKeys g)
        (linked : (m : String) (placed : List String)
          → 1 ≤ rest m placed g
          → contains m nodes ≡ true) where
      turn_IsSorting :
          (node : String) (queue : List String) (s s' : SortState)
          → IsSorting s
          → s.queue ≡ node ∷ queue
          → contains node s.order ≡ false
          → contains node (s.order ++ s.queue) ≡ true
          → IsReleased
              (edges_from node g)
              (record s { order = s.order ++ (node ∷ []); queue = queue })
              s'
          → IsSorting s'
      turn_IsSorting node queue s s' i front new waits done =
          let es = edges_from node g in
          let o1 = s.order ++ (node ∷ []) in
          let placed = done.same_order in
          let left' : (m : String) → degree m s'.in_degree ≡ rest m s'.order g = λ m. omega (
            arith,
            ap (λ o. rest m o g) placed,
            i.left m,
            rest-place m node s.order g unique_keys new,
            done.lowered m,
          ) in
          record {
            clear = done.still_clear;
            left = left';
            chosen = λ m.
                let whole : (contains m o1 || contains m queue)
                    ≡ (contains m nodes && (rest m s.order g == 0)) =
                  sym (contains-append_lists m o1 queue)
                  ∙ ap (contains m)
                      (append_assoc s.order (node ∷ []) queue ∙ ap (λ q. s.order ++ q) (sym front))
                  ∙ i.chosen m in
                let step =
                  chosen_step (contains m o1) (contains m queue) (contains m nodes)
                    (rest m s.order g) (rest m o1 g) (count m es)
                    (rest-place m node s.order g unique_keys new) whole (linked m s.order) in
                let moved : rest m s'.order g ≡ rest m o1 g = ap (λ o. rest m o g) placed in
                contains-append_lists m s'.order s'.queue
                ∙ ap (λ b. b || contains m s'.queue) (ap (contains m) placed)
                ∙ ap (λ b. contains m o1 || b) (done.queued m)
                ∙ ap
                    (λ d.
                      contains m o1 || (contains m queue || (not (count m es == 0) && (d == 0))))
                    (left' m ∙ moved)
                ∙ step
                ∙ ap (λ r. contains m nodes && (r == 0)) (sym moved);
            forward = subst (IsForward []) (sym placed) (
                IsForward-append node [] s.order i.forward
                  (sym (i.left node) ∙ i.clear.clear node waits));
          }

      pub take_node :
          (node : String) (queue : List String) (s : SortState)
          → IsSorting s
          → s.queue ≡ node ∷ queue
          → let s' =
              release
                (edges_from node g)
                (record s { order = s.order ++ (node ∷ []); queue = queue }) in
            IsSorting s' × (unplaced s'.order nodes + 1 ≤ unplaced s.order nodes)
      take_node node queue s i front =
          let es = edges_from node g in
          let s1 : SortState = record s { order = s.order ++ (node ∷ []); queue = queue } in
          let whole : s1.order ++ s1.queue ≡ s.order ++ s.queue =
            append_assoc s.order (node ∷ []) queue ∙ ap (λ q. s.order ++ q) (sym front) in
          let unique = subst (λ q. IsUnique (s.order ++ q)) front i.clear.unique in
          let new = IsUnique-middle node s.order queue unique in
          let clear1 : IsClear s1 = record {
            unique = subst IsUnique (sym whole) i.clear.unique;
            clear = λ m h. i.clear.clear m (sym (ap (contains m) whole) ∙ h);
          } in
          let done =
            release-IsReleased es s1
              (λ k. omega (arith, i.left k, rest-place k node s.order g unique_keys new)) clear1 in
          let waits : contains node (s.order ++ s.queue) ≡ true = ground (
            arith,
            contains-append_lists node s.order s.queue,
            ap (contains node) front,
            eq_iff node node,
          ) in
          let known : contains node nodes ≡ true = ground (arith, i.chosen node) in
          (
            turn_IsSorting node queue s (release es s1) i front new waits done,
            subst (λ o. unplaced o nodes + 1 ≤ unplaced s.order nodes) (sym done.same_order)
                (unplaced_fewer node s.order nodes known new),
          )
