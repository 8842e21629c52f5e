-- ===== src/Jobs/Access/Deletion.antt =====
-- What a completion and a deletion leave behind for the requests that follow.
use becertain.Prelude.{
  ℕ, ◌≡◌, refl, List, none, some, false, String, arith, eq_iff, Option-cases, inl, inr,
}
use becertain.Prelude.Table.{get, get-put, get-add, key-get}
use becertain.Http.{ok, raised, http_error}
use becertain.Jobs.Rows.{
  JobStatus, RcaJob, RcaReport, Db, Env, Caller, to_view, is_withdrawn, job_keyed, report_keyed,
}
use becertain.Jobs.Marks.{
  mark_running, mark_completed, mark_failed, mark_cancelled, completed_row, store_report,
  new_report, renewed_report,
}
use becertain.Jobs.Access.Rights.{delete_report_allowed}
use becertain.Jobs.Access.{get_job, get_job_result, delete_report, payload_of, deleted_row}

module _ {J : Type 0} (env : Env J) where
  -- The report that a completion stores holds its result, whether it is new or not.
  payload-store_report :
      (row : RcaJob J) (at : ℕ) (result : J) (reports : List (RcaReport J))
      → payload_of (get row.report_id (store_report env row at result reports)) ≡ some result
  payload-store_report row at result reports = elim (Option-cases (get row.report_id reports)) [
    | inl missing ↦ ground (arith, get-add row.report_id (new_report env row at result) reports)
    | inr (report, found) ↦ ground (
      arith,
      key-get row.report_id report reports found,
      get-put row.report_id (renewed_report env report at result) reports,
    )
  ]

  -- After a completion that found the job neither deleted nor cancelled, a caller of the job's
  -- tenant gets the result together with the view of the completed job.
  pub get_job_result-mark_completed :
      (job_id at : ℕ) (result : J) (ctx : Caller) (db : Db J) (row : RcaJob J)
      → get job_id db.jobs ≡ some row
      → is_withdrawn row.status ≡ false
      → row.tenant_id ≡ ctx.tenant_id
      → get_job_result job_id ctx (mark_completed env job_id at result db)
        ≡ ok (to_view (completed_row env row at result), result)
  unfolding get_job_result mark_completed
  get_job_result-mark_completed job_id at result ctx db row found kept same =
      let id = key-get job_id row db.jobs found in
      let done = completed_row env row at result in
      ground (
        arith,
        get-put job_id done db.jobs,
        payload-store_report row at result db.reports,
        eq_iff row.tenant_id ctx.tenant_id,
      )

  delete_report-IsDeleted :
      (report_id : ℕ) (ctx : Caller) (now : ℕ) (db db' : Db J) (job_id : ℕ)
      → delete_report report_id ctx now db ≡ ok (job_id, db')
      → (row : RcaJob J) × (get job_id db'.jobs ≡ some row)
        × (row.status ≡ JobStatus.deleted)
        × (payload_of (get report_id db'.reports) ≡ none)
  unfolding delete_report
  delete_report-IsDeleted report_id ctx now db db' job_id h =
      let (report, row, found, found_row, _, _, same) =
        delete_report_allowed report_id ctx now db db' job_id h in
      let row' = deleted_row row ctx now in
      let report' = record report { result_payload = none } in
      let id = key-get report.job_id row db.jobs found_row in
      let rid = key-get report_id report db.reports found in
      (
        row',
        ground (arith, get-put job_id row' db.jobs),
        refl,
        ground (arith, get-put report_id report' db.reports),
      )

  -- A deletion is final: its job is then found by nobody, its payload is gone, and no transaction
  -- of a worker that is still at work changes anything.
  pub delete_report_final :
      (report_id : ℕ) (ctx : Caller) (now : ℕ) (db db' : Db J) (job_id : ℕ)
      → delete_report report_id ctx now db ≡ ok (job_id, db')
      → (other : Caller) (at : ℕ) (result : J) (message : String)
      → (get_job job_id other db' ≡ raised (http_error 404 "RCA job not found"))
        × (get_job_result job_id other db' ≡ raised (http_error 404 "RCA job not found"))
        × (payload_of (get report_id db'.reports) ≡ none)
        × (mark_running job_id at db' ≡ db')
        × (mark_completed env job_id at result db' ≡ db')
        × (mark_failed env job_id at message db' ≡ db')
        × (mark_cancelled env job_id at message db' ≡ db')
  unfolding get_job get_job_result mark_running mark_completed mark_failed mark_cancelled
  delete_report_final report_id ctx now db db' job_id h other at result message =
      let (row, found, gone, payload) = delete_report-IsDeleted report_id ctx now db db' job_id h in
      (ground arith, ground arith, payload, ground arith, ground arith, ground arith, ground arith)
