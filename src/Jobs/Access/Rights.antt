-- ===== src/Jobs/Access/Rights.antt =====
-- Who may read and delete: the checks of `get_job`, `get_report` and `delete_report`.
use becertain.Prelude.{ℕ, ◌≡◌, ◌≢◌, ◌↔◌, ◌⊎◌, some, true, arith, eq_iff, Option-cases, inl, inr}
use becertain.Prelude.Table.{get}
use becertain.Http.{ok}
use becertain.Jobs.Rows.{
  JobStatus, RcaJob, RcaReport, Db, Caller, JobView, to_view, job_keyed, report_keyed,
}
use becertain.Jobs.Access.{get_job, delete_report}

module _ {J : Type 0} where
  -- A job is read exactly by the callers of its tenant, while it is not deleted, and what they read
  -- is the view of its row.
  pub get_job_iff :
      (job_id : ℕ) (ctx : Caller) (db : Db J) (view : JobView)
      → (get_job job_id ctx db ≡ ok view) ↔ (
          (row : RcaJob J) × (get job_id db.jobs ≡ some row)
          × (row.status ≢ JobStatus.deleted)
          × (row.tenant_id ≡ ctx.tenant_id)
          × (view ≡ to_view row))
  unfolding get_job
  get_job_iff job_id ctx db view = elim (Option-cases (get job_id db.jobs)) [
    | inl missing ↦ (λ h. absurd (ground arith), λ w. absurd (ground arith))
    | inr (row, found) ↦ (
      λ h. (
        row,
        found,
        ground arith,
        ground (arith, eq_iff row.tenant_id ctx.tenant_id),
        ground arith,
      ),
      λ w. ground (arith, eq_iff w.0.tenant_id ctx.tenant_id),
    )
  ]

  -- A report is deleted only by a caller of its tenant who asked for the job or is a superuser.
  pub delete_report_allowed :
      (report_id : ℕ) (ctx : Caller) (now : ℕ) (db db' : Db J) (job_id : ℕ)
      → delete_report report_id ctx now db ≡ ok (job_id, db')
      → (report : RcaReport J) × (row : RcaJob J) × (get report_id db.reports ≡ some report)
        × (get report.job_id db.jobs ≡ some row)
        × (report.tenant_id ≡ ctx.tenant_id)
        × ((row.requested_by ≡ ctx.user_id) ⊎ (ctx.is_superuser ≡ true))
        × (row.job_id ≡ job_id)
  unfolding delete_report
  delete_report_allowed report_id ctx now db db' job_id h =
      elim (Option-cases (get report_id db.reports)) [
        | inl missing ↦ absurd (ground arith)
        | inr (report, found) ↦ elim (Option-cases (get report.job_id db.jobs)) [
          | inl missing ↦ absurd (ground arith)
          | inr (row, found_row) ↦ (
            report,
            row,
            found,
            found_row,
            ground (arith, eq_iff report.tenant_id ctx.tenant_id),
            ground (arith, eq_iff row.requested_by ctx.user_id),
            ground arith,
          )
        ]
      ]
