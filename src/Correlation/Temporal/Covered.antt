-- ===== src/Correlation/Temporal/Covered.antt =====
-- No anchor is lost: it is in the window of an event, or too few signals are near it.
use mathlib.Core.Path.{subst}
use becertain.Prelude.{
  ◌<◌, ◌≡◌, refl, sym, true, false, List, [], ◌∷◌, ◌++◌, ◌&&◌, ◌||◌, ◌⊎◌, inl, inr, All, All-imp,
  Bool-cases, filter, arith, ltb,
}
use becertain.Prelude.Sorting.{AnyOf, AnyOf-sort_by}
use becertain.Correlation.Temporal.{
  Signals, CorrelatedEvent, correlate, correlate_loop, anchor_times, event_of, signal_count_of,
  in_window, is_used, window_from, window_to,
}

module _ {F : Type 0} (s : Signals F) where
  -- The window of an event has the anchor, or is the window around it.
  abbrev pub Covers : F → CorrelatedEvent F → Type 0
  Covers a e = ((s.fl.le e.window_start a && s.fl.le a e.window_end) ≡ true) ⊎ (e ≡ event_of s a)

  abbrev pub IsCovered : List (CorrelatedEvent F) → F → Type 0
  IsCovered events a = (signal_count_of s a < 2) ⊎ AnyOf (Covers a) events

  -- Equal floats are alike to `<=`.
  abbrev pub IsCongruent : Type 0
  IsCongruent =
      (x y z : F) → s.fl.eq x y ≡ true → (s.fl.le z x ≡ s.fl.le z y) × (s.fl.le x z ≡ s.fl.le y z)

  is_used-append :
      (a : F) (xs ys : List F) → is_used s a (xs ++ ys) ≡ (is_used s a xs || is_used s a ys)
  is_used-append a [] ys = refl
  is_used-append a (x ∷ xs) ys = ground (arith, is_used-append a xs ys)

  -- What an event marks as used is in its window.
  is_used-window :
      (anchor a : F) (anchors : List F)
      → IsCongruent
      → is_used s a (filter (in_window s anchor) anchors) ≡ true
      → in_window s anchor a ≡ true
  is_used-window anchor a [] same h = ground arith
  is_used-window anchor a (x ∷ xs) same h = elim (Bool-cases (in_window s anchor x)) [
    | inl inside ↦ elim (Bool-cases (s.fl.eq x a)) [
      | inl equal ↦
          let (from, _) = same x a (window_from s anchor) equal in
          let (_, to) = same x a (window_to s anchor) equal in rw (from, to) at inside
      | inr other ↦ is_used-window anchor a xs same (rw (inside, other) at h)
    ]
    | inr outside ↦ is_used-window anchor a xs same (rw outside at h)
  ]

  abbrev IsSettled : List F → List (CorrelatedEvent F) → F → Type 0
  IsSettled used events a = (is_used s a used ≡ true) ⊎ IsCovered events a

  after_event :
      (anchor : F) (anchors used : List F) (events : List (CorrelatedEvent F)) (a : F)
      → IsCongruent
      → IsSettled (filter (in_window s anchor) anchors ++ used) events a
      → IsSettled used (event_of s anchor ∷ events) a
  after_event anchor anchors used events a same (inr (inl few)) = inr (inl few)
  after_event anchor anchors used events a same (inr (inr found)) = inr (inr (inr found))
  after_event anchor anchors used events a same (inl marked) =
      elim (Bool-cases (is_used s a (filter (in_window s anchor) anchors))) [
        | inl now ↦ inr (inr (inl (inl (is_used-window anchor a anchors same now))))
        | inr before ↦
            inl (ground (arith, is_used-append a (filter (in_window s anchor) anchors) used))
      ]

  correlate_loop-IsSettled :
      (anchors rest used : List F)
      → IsCongruent
      → All (IsSettled used (correlate_loop s anchors rest used)) rest
  unfolding correlate_loop
  correlate_loop-IsSettled anchors [] used same = tt
  correlate_loop-IsSettled anchors (anchor ∷ rest) used same =
      elim (Bool-cases (is_used s anchor used)) [
        | inl marked ↦
            subst Settled (sym (skip (ground arith)))
              (inl marked, correlate_loop-IsSettled anchors rest used same)
        | inr unmarked ↦ elim (Bool-cases (ltb (signal_count_of s anchor) 2)) [
          | inl few ↦
              subst Settled (sym (skip (ground arith)))
                (inr (inl (ground arith)), correlate_loop-IsSettled anchors rest used same)
          | inr enough ↦ subst Settled (sym (open_one (ground arith))) (
            inr (inr (inl (inr refl))),
            All-imp _ _ rest (λ a h. after_event anchor anchors used _ a same h)
                (correlate_loop-IsSettled anchors rest (filter (in_window s anchor) anchors ++ used)
                  same),
          )
        ]
      ]
    where
      Settled : List (CorrelatedEvent F) → Type 0
      Settled events = All (IsSettled used events) (anchor ∷ rest)

      skip :
          (is_used s anchor used || ltb (signal_count_of s anchor) 2) ≡ true
          → correlate_loop s anchors (anchor ∷ rest) used ≡ correlate_loop s anchors rest used
      skip e = rw e refl

      open_one :
          (is_used s anchor used || ltb (signal_count_of s anchor) 2) ≡ false
          → correlate_loop s anchors (anchor ∷ rest) used
            ≡ event_of s anchor
              ∷ correlate_loop s anchors rest (filter (in_window s anchor) anchors ++ used)
      open_one e = rw e refl

  -- For each time of an anomaly and each start of a burst that is a number: fewer than two signals are
  -- in the window around it, or it is within the window of some event of `correlate`, or one of these
  -- events is that of its own window. Floats that are equal are taken to compare alike.
  pub correlate-IsCovered : IsCongruent → All (IsCovered (correlate s)) (anchor_times s)
  unfolding correlate
  correlate-IsCovered same =
      All-imp (IsSettled [] (correlate_loop s (anchor_times s) (anchor_times s) [])) _ _
        (λ a h. elim h [
          | inl none_used ↦ absurd (ground arith)
          | inr covered ↦ elim covered [
            | inl few ↦ inl few
            | inr found ↦ inr (AnyOf-sort_by _ (Covers a) _ found)
          ]
        ])
        (correlate_loop-IsSettled (anchor_times s) (anchor_times s) [] same)
