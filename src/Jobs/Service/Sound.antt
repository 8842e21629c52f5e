-- ===== src/Jobs/Service/Sound.antt =====
-- What holds of the tables in every reachable state, and how a write to one row keeps it.
use becertain.Prelude.{
  ℕ, ◌≡◌, refl, ◌≢◌, none, some, List, [], ◌∷◌, Bool, true, false, inl, inr, arith, All, All-imp,
  sym, ap, ◌∙◌, ◌==◌, Bool-cases,
}
use becertain.Prelude.Table.{All-get, IsKeyed, get, put, get-put}
use becertain.Jobs.Rows.{JobStatus, RcaJob, RcaReport, Db, job_keyed, report_keyed}
use becertain.Jobs.Listing.Order.{HasUniqueIds}

-- The states of a job that can have a report.
abbrev pub is_settled : JobStatus → Bool
is_settled JobStatus.completed = true
is_settled JobStatus.cancelled = true
is_settled JobStatus.deleted = true
is_settled _ = false

module _ {J : Type 0} where
  -- No two rows share their job id or their report id.
  abbrev pub HasUniqueKeys : List (RcaJob J) → Type 0
  HasUniqueKeys [] = Unit
  HasUniqueKeys (r ∷ rs) =
      All (λ x. (x.job_id ≢ r.job_id) × (x.report_id ≢ r.report_id)) rs × HasUniqueKeys rs

  -- A report belongs to a job that has come to an end, and that it has no payload if that job is
  -- deleted.
  abbrev pub ReportFits : List (RcaJob J) → RcaReport J → Type 0
  ReportFits rows report =
      (row : RcaJob J) × (get report.job_id rows ≡ some row)
      × (row.report_id ≡ report.report_id)
      × (row.tenant_id ≡ report.tenant_id)
      × (is_settled row.status ≡ true)
      × (row.status ≡ JobStatus.deleted → report.result_payload ≡ none)

  pub record DbIsSound (db : Db J) : Type 0 where
    pub keys : HasUniqueKeys db.jobs
    pub report_keys : IsKeyed db.reports
    pub fit : All (ReportFits db.jobs) db.reports

  pub HasUniqueKeys-ids : (rows : List (RcaJob J)) → HasUniqueKeys rows → HasUniqueIds rows
  HasUniqueKeys-ids [] h = tt
  HasUniqueKeys-ids (r ∷ rs) (h, hs) = (ids rs h, HasUniqueKeys-ids rs hs)
    where
      ids :
          (xs : List (RcaJob J))
          → All (λ x. (x.job_id ≢ r.job_id) × (x.report_id ≢ r.report_id)) xs
          → All (λ x. x.job_id ≢ r.job_id) xs
      ids [] h = tt
      ids (x ∷ xs) h = (h.0.0, ids xs h.1)

  -- A report id names one job.
  pub report_id_injective :
      (i j : ℕ) (rows : List (RcaJob J)) (a b : RcaJob J)
      → HasUniqueKeys rows
      → get i rows ≡ some a
      → get j rows ≡ some b
      → a.report_id ≡ b.report_id
      → i ≡ j
  report_id_injective i j [] a b u p q e = cc
  report_id_injective i j (r ∷ rs) a b u p q e = elim (Bool-cases (r.job_id == i)) [
    | inl i_here ↦ elim (Bool-cases (r.job_id == j)) [
      | inl j_here ↦ ground arith
      | inr j_later ↦
          let other = All-get _ j rs b u.0 (rw j_later at q) in
          let same : r ≡ a = ground arith in
          absurd (other.1 (sym e ∙ ap (λ x. x.report_id) (sym same)))
    ]
    | inr i_later ↦ elim (Bool-cases (r.job_id == j)) [
      | inl j_here ↦
          let other = All-get _ i rs a u.0 (rw i_later at p) in
          let same : r ≡ b = ground arith in absurd (other.1 (e ∙ ap (λ x. x.report_id) (sym same)))
      | inr j_later ↦ report_id_injective i j rs a b u.1 (rw i_later at p) (rw j_later at q) e
    ]
  ]

  All-put :
      (P : RcaJob J → Type 0) (row : RcaJob J) (rows : List (RcaJob J))
      → All P rows
      → P row
      → All P (put row rows)
  All-put P row [] h p = tt
  All-put P row (r ∷ rs) h p = elim (Bool-cases (r.job_id == row.job_id)) [
    | inl here ↦ rw here (p, h.1)
    | inr later ↦ rw later (h.0, All-put P row rs h.1 p)
  ]

  -- A write that keeps the two ids of its row keeps the keys unique.
  pub HasUniqueKeys-put :
      (row row' : RcaJob J) (rows : List (RcaJob J))
      → HasUniqueKeys rows
      → get row'.job_id rows ≡ some row
      → row'.report_id ≡ row.report_id
      → HasUniqueKeys (put row' rows)
  HasUniqueKeys-put row row' [] u p e = tt
  HasUniqueKeys-put row row' (r ∷ rs) u p e = elim (Bool-cases (r.job_id == row'.job_id)) [
    | inl here ↦
        let same : r ≡ row = ground arith in rw here (All-imp _ _ rs (λ x h. ground arith) u.0, u.1)
    | inr later ↦
        let found = rw later at p in
        let other = All-get _ row'.job_id rs row u.0 found in
        rw later (
          All-put _ row' rs u.0 (ground arith, ground arith),
          HasUniqueKeys-put row row' rs u.1 found e,
        )
  ]

  -- A write to a row keeps the reports fitting, unless it takes a settled job out of its state or
  -- deletes it.
  pub ReportFits-put :
      (row row' : RcaJob J) (rows : List (RcaJob J)) (report : RcaReport J)
      → get row'.job_id rows ≡ some row
      → row'.report_id ≡ row.report_id
      → row'.tenant_id ≡ row.tenant_id
      → (is_settled row.status ≡ true
          → (is_settled row'.status ≡ true) × (row'.status ≢ JobStatus.deleted))
      → ReportFits rows report
      → ReportFits (put row' rows) report
  ReportFits-put row row' rows report found same_id same_tenant keep
        (job, at, id, tenant, settled, gone) =
      elim (Bool-cases (row'.job_id == report.job_id)) [
        | inl here ↦
            let same : job ≡ row = ground arith in
            let kept = keep (ap (λ r. is_settled r.status) (sym same) ∙ settled) in
            (
              row',
              rw (get-put report.job_id row' rows (λ e. cc), here) refl,
              same_id ∙ ap (λ r. r.report_id) (sym same) ∙ id,
              same_tenant ∙ ap (λ r. r.tenant_id) (sym same) ∙ tenant,
              kept.0,
              λ deleted. absurd (kept.1 deleted),
            )
        | inr later ↦ (
          job,
          rw (get-put report.job_id row' rows (λ e. cc), later) at,
          id,
          tenant,
          settled,
          gone,
        )
      ]

  -- The same for the tables.
  pub save-DbIsSound :
      (row row' : RcaJob J) (db : Db J)
      → DbIsSound db
      → get row'.job_id db.jobs ≡ some row
      → row'.report_id ≡ row.report_id
      → row'.tenant_id ≡ row.tenant_id
      → (is_settled row.status ≡ true
          → (is_settled row'.status ≡ true) × (row'.status ≢ JobStatus.deleted))
      → DbIsSound (record db { jobs = put row' db.jobs })
  save-DbIsSound row row' db sound found same_id same_tenant keep = record {
    keys = HasUniqueKeys-put row row' db.jobs sound.keys found same_id;
    report_keys = sound.report_keys;
    fit =
        All-imp _ _ db.reports
          (λ report. ReportFits-put row row' db.jobs report found same_id same_tenant keep)
          sound.fit;
  }
