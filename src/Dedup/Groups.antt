-- ===== src/Dedup/Groups.antt =====
-- The groups are consecutive runs of the anomalies by time, each with its most severe member.
use mathlib.Core.List.{Perm}
use mathlib.Core.Path.{subst}
use becertain.Prelude.{
  ◌+◌, ◌≤◌, ◌<◌, Bool, true, false, List, [], ◌∷◌, ◌++◌, ◌≡◌, refl, sym, ap, ◌∙◌, arith, Bool-cases,
  inl, inr, ltb, All, All-append, All-imp, length, length-append, eq_iff,
}
use becertain.Prelude.{append_assoc, append_nil}
use becertain.Floats.{Floats}
use becertain.Enums.{weight}
use becertain.Dedup.{
  MetricAnomaly, AnomalyGroup, single, joins, join, group_loop, group_metric_anomalies,
  sort_anomalies,
}
use becertain.Dedup.Sorting.{Perm-sort, IsAscending, IsAscending-sort}
use becertain.Dedup.Matches.{
  IsMismatch, IsGathered, alone, follows, leads, joins-IsMatch, joins-IsMismatch,
}

module _ {F A : Type 0} (fl : Floats F) (time_window : F) (by_metric : Bool) where
  abbrev pub all_members : List (AnomalyGroup F A) → List (MetricAnomaly F A)
  all_members [] = []
  all_members (g ∷ gs) = g.members ++ all_members gs

  -- The representative is the first of the most severe members, and with `by_metric` all the
  -- members are of its metric.
  pub record IsGroup (g : AnomalyGroup F A) : Type 0 where
    pub gathered : IsGathered fl time_window by_metric g.members g.representative
    pub counted : g.count ≡ length g.members
    pub before : List (MetricAnomaly F A)
    pub after : List (MetricAnomaly F A)
    pub found : g.members ≡ before ++ (g.representative ∷ after)
    pub first : All (λ a. weight a.severity < weight g.representative.severity) before
    pub heaviest : All (λ a. weight a.severity ≤ weight g.representative.severity) after
    pub uniform :
        by_metric ≡ true → All (λ a. a.metric_name ≡ g.representative.metric_name) g.members

  -- The first member of a group did not join the group before it.
  abbrev pub IsApart : List (AnomalyGroup F A) → Type 0
  IsApart [] = Unit
  IsApart (g ∷ []) = Unit
  IsApart (g ∷ h ∷ gs) =
      ((a : MetricAnomaly F A) × (rest : List (MetricAnomaly F A)) × (h.members ≡ a ∷ rest)
        × IsMismatch fl time_window by_metric g.representative a)
      × IsApart (h ∷ gs)

  IsGroup-single : (a : MetricAnomaly F A) → IsGroup (single fl a)
  IsGroup-single a = record {
    gathered = alone a;
    counted = refl;
    before = [];
    after = [];
    found = refl;
    first = tt;
    heaviest = tt;
    uniform = λ h. (refl, tt);
  }

  IsGroup-join :
      (g : AnomalyGroup F A) (a : MetricAnomaly F A)
      → IsGroup g
      → joins fl time_window by_metric g.representative a ≡ true
      → IsGroup (join fl g a)
  IsGroup-join g a i joined =
      let rep = g.representative in
      let named : by_metric ≡ true → a.metric_name ≡ rep.metric_name =
        λ h. ground (arith, eq_iff a.metric_name rep.metric_name) in
      let counted' : g.count + 1 ≡ length (g.members ++ (a ∷ [])) =
        omega (arith, i.counted, length-append g.members (a ∷ [])) in
      elim (Bool-cases (ltb (weight g.representative.severity) (weight a.severity))) [
        | inl more ↦ rw more (record {
          gathered =
              leads g.members (g.members ++ (a ∷ [])) rep a i.gathered
                (joins-IsMatch fl time_window by_metric rep a joined) (ground arith) refl;
          counted = counted';
          before = g.members;
          after = [];
          found = refl;
          first = subst (All (λ x. weight x.severity < weight a.severity)) (sym i.found) (
              All-append _ i.before (rep ∷ i.after)
                (All-imp _ _ i.before (λ x h. ground (arith, h)) i.first)
                (ground arith, All-imp _ _ i.after (λ x h. ground (arith, h)) i.heaviest));
          heaviest = tt;
          uniform = λ h.
              All-append _ g.members (a ∷ [])
                (All-imp _ _ g.members (λ x e. e ∙ sym (named h)) (i.uniform h)) (refl, tt);
        })
        | inr less ↦ rw less (record {
          gathered =
              follows g.members (g.members ++ (a ∷ [])) rep a i.gathered
                (joins-IsMatch fl time_window by_metric rep a joined) (ground arith) refl;
          counted = counted';
          before = i.before;
          after = i.after ++ (a ∷ []);
          found =
              ap (λ xs. xs ++ (a ∷ [])) i.found ∙ append_assoc i.before (rep ∷ i.after) (a ∷ []);
          first = i.first;
          heaviest = All-append _ i.after (a ∷ []) i.heaviest (ground arith, tt);
          uniform = λ h. All-append _ g.members (a ∷ []) (i.uniform h) (named h, tt);
        })
      ]

  all_members-append :
      (gs hs : List (AnomalyGroup F A)) → all_members (gs ++ hs) ≡ all_members gs ++ all_members hs
  all_members-append [] hs = refl
  all_members-append (g ∷ gs) hs =
      ap (λ xs. g.members ++ xs) (all_members-append gs hs)
      ∙ sym (append_assoc g.members (all_members gs) (all_members hs))

  all_members-join :
      (gs : List (AnomalyGroup F A)) (current : AnomalyGroup F A) (a : MetricAnomaly F A)
      → all_members (gs ++ (join fl current a ∷ []))
        ≡ all_members (gs ++ (current ∷ [])) ++ (a ∷ [])
  all_members-join [] current a =
      append_nil (current.members ++ (a ∷ []))
      ∙ ap (λ xs. xs ++ (a ∷ [])) (sym (append_nil current.members))
  all_members-join (g ∷ gs) current a =
      ap (λ xs. g.members ++ xs) (all_members-join gs current a)
      ∙ sym (append_assoc g.members (all_members (gs ++ (current ∷ []))) (a ∷ []))

  All-append_one :
      (P : AnomalyGroup F A → Type 0) (gs : List (AnomalyGroup F A)) (g : AnomalyGroup F A)
      → All P gs
      → P g
      → All P (gs ++ (g ∷ []))
  All-append_one P gs g hs h = All-append P gs (g ∷ []) hs (h, tt)

  IsApart-close :
      (gs : List (AnomalyGroup F A)) (current : AnomalyGroup F A) (a : MetricAnomaly F A)
      → IsApart (gs ++ (current ∷ []))
      → IsMismatch fl time_window by_metric current.representative a
      → IsApart ((gs ++ (current ∷ [])) ++ (single fl a ∷ []))
  IsApart-close [] current a h apart = ((a, [], refl, apart), tt)
  IsApart-close (g ∷ []) current a h apart = (h.0, IsApart-close [] current a h.1 apart)
  IsApart-close (g ∷ k ∷ gs) current a h apart = (h.0, IsApart-close (k ∷ gs) current a h.1 apart)

  IsApart-join :
      (gs : List (AnomalyGroup F A)) (current : AnomalyGroup F A) (a : MetricAnomaly F A)
      → IsApart (gs ++ (current ∷ []))
      → IsApart (gs ++ (join fl current a ∷ []))
  IsApart-join [] current a h = tt
  IsApart-join (g ∷ []) current a h =
      let (b, rest, starts, apart) = h.0 in
      ((b, rest ++ (a ∷ []), ap (λ xs. xs ++ (a ∷ [])) starts, apart), tt)
  IsApart-join (g ∷ k ∷ gs) current a h = (h.0, IsApart-join (k ∷ gs) current a h.1)

  group_loop_lem :
      (as' : List (MetricAnomaly F A)) (current : AnomalyGroup F A) (gs : List (AnomalyGroup F A))
      → All IsGroup (gs ++ (current ∷ []))
      → IsGroup current
      → All IsGroup gs
      → IsApart (gs ++ (current ∷ []))
      → let groups = group_loop fl time_window by_metric as' current gs in
        (all_members groups ≡ all_members (gs ++ (current ∷ [])) ++ as')
        × All IsGroup groups
        × IsApart groups
  unfolding group_loop
  group_loop_lem [] current gs all this before apart =
      (sym (append_nil (all_members (gs ++ (current ∷ [])))), all, apart)
  group_loop_lem (a ∷ as') current gs all this before apart =
      elim (Bool-cases (joins fl time_window by_metric current.representative a)) [
        | inl joined ↦
            let grown = IsGroup-join current a this joined in
            let (flat, groups, separate) =
              group_loop_lem as' (join fl current a) gs (All-append_one IsGroup gs _ before grown)
                grown before (IsApart-join gs current a apart) in
            rw joined (
              flat
                  ∙ (ap (λ m. m ++ as') (all_members-join gs current a)
                      ∙ append_assoc (all_members (gs ++ (current ∷ []))) (a ∷ []) as'),
              groups,
              separate,
            )
        | inr refused ↦
            let fresh = IsGroup-single a in
            let (flat, groups, separate) =
              group_loop_lem as' (single fl a) (gs ++ (current ∷ []))
                (All-append_one IsGroup _ _ all fresh) fresh all
                (IsApart-close gs current a apart
                  (joins-IsMismatch fl time_window by_metric current.representative a refused)) in
            rw refused (
              flat
                  ∙ (ap (λ m. m ++ as')
                        (all_members-append (gs ++ (current ∷ [])) (single fl a ∷ []))
                      ∙ append_assoc (all_members (gs ++ (current ∷ []))) (a ∷ []) as'),
              groups,
              separate,
            )
      ]

  groups_of_sorted :
      (sorted : List (MetricAnomaly F A))
      → let groups = elim sorted as (λ _. List (AnomalyGroup F A)) [
        | [] ↦ []
        | a ∷ as' ↦ group_loop fl time_window by_metric as' (single fl a) []
      ] in
        (all_members groups ≡ sorted) × All IsGroup groups × IsApart groups
  groups_of_sorted [] = (refl, tt, tt)
  groups_of_sorted (a ∷ as') =
      let fresh = IsGroup-single a in group_loop_lem as' (single fl a) [] (fresh, tt) fresh tt tt

-- The members of the groups, one group after the other, are the anomalies, none lost and none
-- repeated, in the order of the sort, which leaves none later than the next one, where `<` of the times
-- is asymmetric. In each group every member after the first was close in time to the representative
-- of the members before it, and the representative is the first of the most severe ones; the members
-- are counted, and with `by_metric` all are of one metric. The first member of the next group is not
-- close in time to the representative, or with `by_metric` of another metric.
pub group_metric_anomalies_lem :
    {F A : Type 0} (fl : Floats F) (time_window : F) (by_metric : Bool)
    (anomalies : List (MetricAnomaly F A))
    → ((a b : F) → fl.lt a b ≡ true → fl.lt b a ≡ false)
    → let groups = group_metric_anomalies fl time_window by_metric anomalies in
      (all_members fl time_window by_metric groups ≡ sort_anomalies fl anomalies)
      × IsAscending fl (all_members fl time_window by_metric groups)
      × Perm (all_members fl time_window by_metric groups) anomalies
      × All (IsGroup fl time_window by_metric) groups
      × IsApart fl time_window by_metric groups
unfolding group_metric_anomalies
group_metric_anomalies_lem fl time_window by_metric anomalies asym =
    let (flat, groups, separate) =
      groups_of_sorted fl time_window by_metric (sort_anomalies fl anomalies) in
    (
      flat,
      subst (IsAscending fl) (sym flat) (IsAscending-sort fl asym anomalies),
      subst (λ xs. Perm xs anomalies) (sym flat) (Perm-sort fl anomalies),
      groups,
      separate,
    )
