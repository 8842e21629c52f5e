-- ===== src/Correlation/Links/Found.antt =====
-- What `link_logs_to_metrics` of engine/correlation/signals.py gives.
use mathlib.Core.Path.{subst}
use becertain.Prelude.{
  ◌≡◌, ◌≢◌, refl, Bool, true, false, List, [], ◌∷◌, ◌++◌, Option, none, some, inl, inr, All,
  All-append, All-imp, Bool-cases, sym, ◌∙◌, arith, Option-cases,
}
use becertain.Prelude.Sorting.{
  sort_by, All-sort_by, IsSorted, IsSorted-sort_by, AnyOf, AnyOf-sort_by, AnyOf-append_left,
  AnyOf-append_right,
}
use becertain.Store.Documents.{◌>>=◌}
use becertain.Value.{str, Runtime}
use becertain.Correlation.{Arithmetic, MetricAnomaly, LogBurst, attr_or}
use becertain.Correlation.Links.{
  LogMetricLink, start_of, is_linked, link, link_of, links_of, all_links, link_logs_to_metrics,
}

some_inj : {A : Type 0} {a b : A} → some a ≡ some b → a ≡ b
some_inj h = cc

module _ {F : Type 0} (fl : Arithmetic F) (rt : Runtime F) (max_lag_seconds : F) where
  -- What the loops give: a list with the property, and no exception.
  abbrev pub Gives : (List (LogMetricLink F) → Type 0) → Option (List (LogMetricLink F)) → Type 0
  Gives P none = ⊥
  Gives P (some links) = P links

  Gives-append :
      (P Q S : List (LogMetricLink F) → Type 0) (m n : Option (List (LogMetricLink F)))
      → Gives P m
      → Gives Q n
      → ((xs ys : List (LogMetricLink F)) → P xs → Q ys → S (xs ++ ys))
      → Gives S (m >>= λ found. n >>= λ others. some (found ++ others))
  Gives-append P Q S (some xs) (some ys) h k join = join xs ys h k
  Gives-append P Q S none n h k join = elim h [ ]
  Gives-append P Q S (some xs) none h k join = elim k [ ]

  -- The burst started at that time, before the anomaly by no more than the maximal lag.
  pub record IsNear (anomaly : MetricAnomaly F) (burst : LogBurst F) (start : F) : Type 0 where
    pub started : start_of fl rt max_lag_seconds burst ≡ some start
    pub after_it : fl.le (fl.of_nat 0) (fl.sub anomaly.timestamp start) ≡ true
    pub in_time : fl.le (fl.sub anomaly.timestamp start) max_lag_seconds ≡ true

  -- What a link of the two says.
  pub record IsLinkOf (anomaly : MetricAnomaly F) (burst : LogBurst F) (start : F)
      (l : LogMetricLink F) : Type 0 where
    pub named : l.metric_name ≡ anomaly.metric_name
    pub timed : l.metric_timestamp ≡ anomaly.timestamp
    pub streamed : l.log_stream ≡ rt.str_of (attr_or burst.stream (str "unknown"))
    pub from_start : l.log_burst_start ≡ start
    pub lagged : l.lag_seconds ≡ fl.round 1 (fl.sub anomaly.timestamp start)
    pub ratio : F
    pub divided : fl.div (fl.sub anomaly.timestamp start) max_lag_seconds ≡ some ratio
    pub strong : l.strength ≡ fl.round 3 (fl.sub (fl.of_nat 1) ratio)

  -- The link is one of the two, which are near.
  abbrev pub IsLink : MetricAnomaly F → LogBurst F → LogMetricLink F → Type 0
  IsLink anomaly burst l = (start : F) × IsNear anomaly burst start × IsLinkOf anomaly burst start l

  -- If the two are near, the links have one of them.
  abbrev pub IsJoined : List (LogMetricLink F) → MetricAnomaly F → LogBurst F → Type 0
  IsJoined links anomaly burst =
      (start : F) → IsNear anomaly burst start → AnyOf (IsLinkOf anomaly burst start) links

  -- Each link is one of an anomaly and a burst that are near, and all these have a link.
  abbrev pub AreLinks : List (MetricAnomaly F) → List (LogBurst F) → List (LogMetricLink F) → Type 0
  AreLinks anomalies bursts links =
      All (λ l. AnyOf (λ a. AnyOf (λ b. IsLink a b l) bursts) anomalies) links
      × All (λ a. All (IsJoined links a) bursts) anomalies

  IsJoined-left :
      (xs ys : List (LogMetricLink F)) (a : MetricAnomaly F) (bursts : List (LogBurst F))
      → All (IsJoined xs a) bursts
      → All (IsJoined (xs ++ ys) a) bursts
  IsJoined-left xs ys a bursts h =
      All-imp _ _ bursts (λ b j start near. AnyOf-append_left _ xs ys (j start near)) h

  IsJoined-right :
      (xs ys : List (LogMetricLink F)) (a : MetricAnomaly F) (bursts : List (LogBurst F))
      → All (IsJoined ys a) bursts
      → All (IsJoined (xs ++ ys) a) bursts
  IsJoined-right xs ys a bursts h =
      All-imp _ _ bursts (λ b j start near. AnyOf-append_right _ xs ys (j start near)) h

  module _ (divides : (x : F) → fl.div x max_lag_seconds ≢ none) where
    Gives-link_of :
        (anomaly : MetricAnomaly F) (burst : LogBurst F)
        → start_of fl rt max_lag_seconds burst ≢ none
        → Gives
            (λ links. All (IsLink anomaly burst) links × IsJoined links anomaly burst)
            (link_of fl rt max_lag_seconds anomaly burst)
    unfolding link_of
    Gives-link_of anomaly burst h = elim (Option-cases (start_of fl rt max_lag_seconds burst)) [
      | inl missing ↦ absurd (h missing)
      | inr (start, found) ↦
          let lag = fl.sub anomaly.timestamp start in
          let same : (other : F) → IsNear anomaly burst other → start ≡ other =
            λ other near. some_inj (sym found ∙ near.started) in
          elim (Bool-cases (is_linked fl rt max_lag_seconds lag)) [
            | inl near ↦ elim (Option-cases (fl.div lag max_lag_seconds)) [
              | inl zero_division ↦ absurd (divides _ zero_division)
              | inr (ratio, divided) ↦
                  let is_near : IsNear anomaly burst start = record {
                    started = found;
                    after_it = ground arith;
                    in_time = ground arith;
                  } in
                  let is_link : IsLinkOf anomaly burst start
                      (link fl rt max_lag_seconds anomaly burst start ratio) =
                    record {
                      named = refl;
                      timed = refl;
                      streamed = refl;
                      from_start = refl;
                      lagged = refl;
                      ratio = ratio;
                      divided = divided;
                      strong = refl;
                    } in
                  rw (found, near, divided)
                    (
                      ((start, is_near, is_link), tt),
                      λ other n. inl (
                          subst
                            (λ x.
                              IsLinkOf anomaly burst x
                                (link fl rt max_lag_seconds anomaly burst start ratio))
                            (same other n) is_link),
                    )
            ]
            | inr apart ↦
                rw (found, apart)
                  (
                    tt,
                    λ other n.
                        let n' = subst (IsNear anomaly burst) (sym (same other n)) n in
                        absurd (ground (arith, n'.after_it, n'.in_time)),
                  )
          ]
    ]

    Gives-links_of :
        (anomaly : MetricAnomaly F) (bursts : List (LogBurst F))
        → All (λ b. start_of fl rt max_lag_seconds b ≢ none) bursts
        → Gives
            (λ links.
              All (λ l. AnyOf (λ b. IsLink anomaly b l) bursts) links
              × All (IsJoined links anomaly) bursts)
            (links_of fl rt max_lag_seconds anomaly bursts)
    unfolding links_of
    Gives-links_of anomaly [] h = (tt, tt)
    Gives-links_of anomaly (b ∷ bursts) h =
        Gives-append _ _ _ (link_of fl rt max_lag_seconds anomaly b)
          (links_of fl rt max_lag_seconds anomaly bursts) (Gives-link_of anomaly b h.0)
          (Gives-links_of anomaly bursts h.1)
          (λ xs ys (sound, joined) (sounds, joins). (
            All-append _ xs ys (All-imp _ _ xs (λ l k. inl k) sound)
                (All-imp _ _ ys (λ l k. inr k) sounds),
            (
              λ start near. AnyOf-append_left _ xs ys (joined start near),
              IsJoined-right xs ys anomaly bursts joins,
            ),
          ))

    Gives-all_links :
        (anomalies : List (MetricAnomaly F)) (bursts : List (LogBurst F))
        → All (λ b. start_of fl rt max_lag_seconds b ≢ none) bursts
        → Gives (AreLinks anomalies bursts) (all_links fl rt max_lag_seconds anomalies bursts)
    unfolding all_links
    Gives-all_links [] bursts h = (tt, tt)
    Gives-all_links (a ∷ anomalies) bursts h =
        Gives-append _ _ _ (links_of fl rt max_lag_seconds a bursts)
          (all_links fl rt max_lag_seconds anomalies bursts) (Gives-links_of a bursts h)
          (Gives-all_links anomalies bursts h)
          (λ xs ys (sound, joined) (sounds, joins). (
            All-append _ xs ys (All-imp _ _ xs (λ l k. inl k) sound)
                (All-imp _ _ ys (λ l k. inr k) sounds),
            (
              IsJoined-left xs ys a bursts joined,
              All-imp _ _ anomalies (λ c j. IsJoined-right xs ys c bursts j) joins,
            ),
          ))

    AreLinks-sort_by :
        (first : LogMetricLink F → LogMetricLink F → Bool) (anomalies : List (MetricAnomaly F))
        (bursts : List (LogBurst F)) (links : List (LogMetricLink F))
        → AreLinks anomalies bursts links
        → AreLinks anomalies bursts (sort_by first links)
    AreLinks-sort_by first anomalies bursts links (sound, joined) = (
      All-sort_by first _ links sound,
      All-imp _ _ anomalies
          (λ a h.
            All-imp _ _ bursts (λ b j start near. AnyOf-sort_by first _ links (j start near)) h)
          joined,
    )

    -- If the start of every burst is a number, the maximal lag is one that a number can be divided by,
    -- and `<` of floats is asymmetric, then `link_logs_to_metrics` returns links, none weaker than the
    -- next one: each is one of an anomaly and a burst that started before it by no more than that lag,
    -- with their name, times and stream; and every anomaly and burst that are so near have a link.
    pub Gives-link_logs_to_metrics :
        (anomalies : List (MetricAnomaly F)) (bursts : List (LogBurst F))
        → All (λ b. start_of fl rt max_lag_seconds b ≢ none) bursts
        → ((x y : F) → fl.lt x y ≡ true → fl.lt y x ≡ false)
        → Gives
            (λ links.
              AreLinks anomalies bursts links × IsSorted (λ k l. fl.lt l.strength k.strength) links)
            (link_logs_to_metrics fl rt max_lag_seconds anomalies bursts)
    unfolding link_logs_to_metrics
    Gives-link_logs_to_metrics anomalies bursts h asym =
        sorted (all_links fl rt max_lag_seconds anomalies bursts)
          (Gives-all_links anomalies bursts h)
      where
        sorted :
            (m : Option (List (LogMetricLink F)))
            → Gives (AreLinks anomalies bursts) m
            → Gives
                (λ links.
                  AreLinks anomalies bursts links
                  × IsSorted (λ k l. fl.lt l.strength k.strength) links)
                (m >>= λ links. some (sort_by (λ k l. fl.lt l.strength k.strength) links))
        sorted none k = elim k [ ]
        sorted (some links) k = (
          AreLinks-sort_by _ anomalies bursts links k,
          IsSorted-sort_by _ (λ k l e. asym _ _ e) links,
        )
