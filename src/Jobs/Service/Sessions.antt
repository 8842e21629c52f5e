-- ===== src/Jobs/Service/Sessions.antt =====
-- Every database session keeps the tables sound.
use mathlib.Core.Path.{subst}
use becertain.Prelude.{
  ℕ, ◌≡◌, refl, ◌≢◌, none, some, List, [], ◌∷◌, false, inl, inr, arith, All, All-imp, All-append,
  ◌==◌, Bool-cases, Option-cases, String, sym, ap, ◌∙◌,
}
use becertain.Prelude.Table.{IsKeyed-add, get, put, add, get-put, get-add, key-get}
use becertain.Jobs.Rows.{
  JobStatus, RcaJob, RcaReport, Db, Env, Caller, job_keyed, report_keyed, is_deleted,
}
use becertain.Jobs.Marks.{
  mark_running, mark_completed, mark_failed, mark_cancelled, failed_row, cancelled_row, new_report,
  completed_row,
}
use becertain.Jobs.Access.{create, new_job}
use becertain.Jobs.Service.Sound.{
  is_settled, HasUniqueKeys, ReportFits, DbIsSound, save-DbIsSound, report_id_injective,
}

module _ {J : Type 0} (env : Env J) where
  HasUniqueKeys-add :
      (row : RcaJob J) (rows : List (RcaJob J))
      → HasUniqueKeys rows
      → All (λ x. (x.job_id ≢ row.job_id) × (x.report_id ≢ row.report_id)) rows
      → HasUniqueKeys (add row rows)
  HasUniqueKeys-add row [] u f = (tt, tt)
  HasUniqueKeys-add row (r ∷ rs) u f = (
    All-append _ rs (row ∷ []) u.0 ((λ e. f.0.0 (sym e), λ e. f.0.1 (sym e)), tt),
    HasUniqueKeys-add row rs u.1 f.1,
  )

  pub create-DbIsSound :
      (ctx : Caller) (payload : J) (job_id report_id now : ℕ) (db : Db J)
      → All (λ row. (row.job_id ≢ job_id) × (row.report_id ≢ report_id)) db.jobs
      → DbIsSound db
      → DbIsSound (create env ctx payload job_id report_id now db).1
  unfolding create
  create-DbIsSound ctx payload job_id report_id now db fresh sound =
      let row : RcaJob J = new_job env ctx payload job_id report_id now in
      record {
        keys = HasUniqueKeys-add row db.jobs sound.keys fresh;
        report_keys = sound.report_keys;
        fit =
            All-imp _ _ db.reports
              (λ report (job, at, id, tenant, settled, gone).
                (job, rw (get-add report.job_id row db.jobs, at) refl, id, tenant, settled, gone))
              sound.fit;
      }

  pub mark_running-DbIsSound :
      (job_id at : ℕ) (db : Db J) (row : RcaJob J)
      → get job_id db.jobs ≡ some row
      → row.status ≡ JobStatus.queued
      → DbIsSound db
      → DbIsSound (mark_running job_id at db)
  unfolding mark_running
  mark_running-DbIsSound job_id at db row found queued sound =
      let row' = record row { status = JobStatus.running; started_at = some at; error = none } in
      let id = key-get job_id row db.jobs found in
      let written : mark_running job_id at db ≡ record db { jobs = put row' db.jobs } =
        ground arith in
      subst DbIsSound (sym written) (
        save-DbIsSound row row' db sound (ap (λ j. get j db.jobs) id ∙ found) refl refl
          (λ settled. absurd (ground arith)))

  pub mark_failed-DbIsSound :
      (job_id at : ℕ) (message : String) (db : Db J) (row : RcaJob J)
      → get job_id db.jobs ≡ some row
      → row.status ≡ JobStatus.running
      → DbIsSound db
      → DbIsSound (mark_failed env job_id at message db)
  unfolding mark_failed
  mark_failed-DbIsSound job_id at message db row found running sound =
      let row' = failed_row env row at message in
      let id = key-get job_id row db.jobs found in
      let written : mark_failed env job_id at message db ≡ record db { jobs = put row' db.jobs } =
        ground arith in
      subst DbIsSound (sym written) (
        save-DbIsSound row row' db sound (ap (λ j. get j db.jobs) id ∙ found) refl refl
          (λ settled. absurd (ground arith)))

  pub mark_cancelled-DbIsSound :
      (job_id at : ℕ) (message : String) (db : Db J)
      → DbIsSound db
      → DbIsSound (mark_cancelled env job_id at message db)
  unfolding mark_cancelled
  mark_cancelled-DbIsSound job_id at message db sound = elim (Option-cases (get job_id db.jobs)) [
    | inl missing ↦
        let same : mark_cancelled env job_id at message db ≡ db = ground arith in
        subst DbIsSound (sym same) sound
    | inr (row, found) ↦ elim (Bool-cases (is_deleted row.status)) [
      | inl deleted ↦
          let same : mark_cancelled env job_id at message db ≡ db = ground arith in
          subst DbIsSound (sym same) sound
      | inr kept ↦
          let row' = cancelled_row env row at message in
          let id = key-get job_id row db.jobs found in
          let written : mark_cancelled env job_id at message db
              ≡ record db { jobs = put row' db.jobs } =
            ground arith in
          subst DbIsSound (sym written) (
            save-DbIsSound row row' db sound (ap (λ j. get j db.jobs) id ∙ found) refl refl
              (λ settled. (refl, λ e. cc)))
    ]
  ]

  -- A running job has no report yet.
  no_report :
      (job_id : ℕ) (db : Db J) (row : RcaJob J) (reports : List (RcaReport J))
      → get job_id db.jobs ≡ some row
      → is_settled row.status ≡ false
      → HasUniqueKeys db.jobs
      → All (ReportFits db.jobs) reports
      → get row.report_id reports ≡ none
  no_report job_id db row [] found unsettled u fit = refl
  no_report job_id db row (r ∷ rs) found unsettled u fit =
      elim (Bool-cases (r.report_id == row.report_id)) [
        | inl here ↦
            let (job, at, id, _, settled, _) = fit.0 in
            let same =
              report_id_injective job_id r.job_id db.jobs row job u found at (ground arith) in
            absurd (ground arith)
        | inr later ↦ rw later (no_report job_id db row rs found unsettled u fit.1)
      ]

  pub mark_completed-DbIsSound :
      (job_id at : ℕ) (result : J) (db : Db J) (row : RcaJob J)
      → get job_id db.jobs ≡ some row
      → row.status ≡ JobStatus.running
      → DbIsSound db
      → DbIsSound (mark_completed env job_id at result db)
  unfolding mark_completed
  mark_completed-DbIsSound job_id at result db row found running sound =
      let row' = completed_row env row at result in
      let report = new_report env row at result in
      let id = key-get job_id row db.jobs found in
      let fresh = no_report job_id db row db.reports found (rw running refl) sound.keys sound.fit in
      let written : mark_completed env job_id at result db
          ≡ record { jobs = put row' db.jobs; reports = add report db.reports } =
        ground arith in
      let saved =
        save-DbIsSound row row' db sound (ap (λ j. get j db.jobs) id ∙ found) refl refl
          (λ settled. absurd (ground arith)) in
      let job_at : get row.job_id (put row' db.jobs) ≡ some row' =
        ground (arith, get-put row.job_id row' db.jobs) in
      subst DbIsSound (sym written) (record {
        keys = saved.keys;
        report_keys = IsKeyed-add report db.reports sound.report_keys fresh;
        fit =
            All-append _ db.reports (report ∷ []) saved.fit
              ((row', job_at, refl, refl, refl, λ e. cc), tt);
      })
