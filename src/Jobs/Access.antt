-- ===== src/Jobs/Access.antt =====
-- The requests that name one job or report: `create_job`, `get_job`, `get_job_result`,
-- `get_report` and `delete_report`, each with its checks in the order of the code.
pub mod Rights
pub mod Deletion
use becertain.Prelude.{ℕ, Option, none, some, ◌&&◌, not, if◌then◌else◌, or_else, text_or, str_eq}
use becertain.Prelude.Table.{get, put, add}
use becertain.Http.{Reply, ok, ◌>>=◌, ◌>>◌, raise_if, or_raise}
use becertain.Jobs.Rows.{
  JobStatus, RcaJob, RcaReport, Db, Env, Caller, JobView, to_view, job_keyed, report_keyed,
  is_deleted, is_completed,
}

module _ {J : Type 0} where
  -- `row is None or row.status == DELETED`, as one lookup
  abbrev pub get_visible : ℕ → Db J → Option (RcaJob J)
  get_visible job_id db = elim (get job_id db.jobs) [
    | none ↦ none
    | some row ↦ if is_deleted row.status then none else some row
  ]

  -- The row that `_create` adds; the payload is the request as `prepare_request` left it.
  abbrev pub new_job : Env J → Caller → J → (job_id report_id now : ℕ) → RcaJob J
  new_job env ctx payload job_id report_id now = record {
    job_id = job_id;
    report_id = report_id;
    tenant_id = ctx.tenant_id;
    requested_by = ctx.user_id;
    status = JobStatus.queued;
    created_at = now;
    started_at = none;
    finished_at = none;
    duration_ms = none;
    request_fingerprint = env.canonical_sha256 payload;
    request_payload = payload;
    summary_preview = none;
    error = none;
    deleted_at = none;
    delete_requested_by = none;
  }

  -- the session of `create_job`
  unfoldable pub create : Env J → Caller → J → (job_id report_id now : ℕ) → Db J → JobView × Db J
  create env ctx payload job_id report_id now db =
      let row : RcaJob J = new_job env ctx payload job_id report_id now in
      (to_view row, record db { jobs = add row db.jobs })

  unfoldable pub get_job : ℕ → Caller → Db J → Reply JobView
  get_job job_id ctx db = do
    row ← or_raise (get_visible job_id db) 404 "RCA job not found"
    raise_if (not (str_eq row.tenant_id ctx.tenant_id)) 403 "Access denied for this RCA job"
    ok (to_view row)

  -- `report is None or report.result_payload is None`
  abbrev pub payload_of : Option (RcaReport J) → Option J
  payload_of none = none
  payload_of (some report) = report.result_payload

  unfoldable pub get_job_result : ℕ → Caller → Db J → Reply (JobView × J)
  get_job_result job_id ctx db = do
    row ← or_raise (get_visible job_id db) 404 "RCA job not found"
    raise_if (not (str_eq row.tenant_id ctx.tenant_id)) 403 "Access denied for this RCA job"
    raise_if (not (is_completed row.status)) 409 "RCA job is not completed yet"
    result ← or_raise (payload_of (get row.report_id db.reports)) 410 "RCA job result has expired"
    ok (to_view row, result)

  unfoldable pub get_report : ℕ → Caller → Db J → Reply (JobView × J)
  get_report report_id ctx db = do
    report ← or_raise (get report_id db.reports) 404 "RCA report not found"
    raise_if (not (str_eq report.tenant_id ctx.tenant_id)) 403 "Access denied for this RCA report"
    row ← or_raise (get_visible report.job_id db) 404 "RCA report not found"
    result ← or_raise report.result_payload 410 "RCA report payload has expired"
    ok (to_view row, result)

  abbrev pub deleted_row : RcaJob J → Caller → ℕ → RcaJob J
  deleted_row row ctx now = record row {
    status = JobStatus.deleted;
    deleted_at = some now;
    delete_requested_by = some ctx.user_id;
    finished_at = some (or_else row.finished_at now);
    error = some (text_or (or_else row.error "") "Deleted by report owner");
  }

  -- The session of `delete_report`, with the id of the job whose task is then cancelled.
  unfoldable pub delete_report : ℕ → Caller → ℕ → Db J → Reply (ℕ × Db J)
  delete_report report_id ctx now db = do
    report ← or_raise (get report_id db.reports) 404 "RCA report not found"
    raise_if (not (str_eq report.tenant_id ctx.tenant_id)) 403 "Access denied for this RCA report"
    row ← or_raise (get report.job_id db.jobs) 404 "RCA report not found"
    raise_if (not (str_eq row.requested_by ctx.user_id) && not ctx.is_superuser) 403
        "Only the report owner can delete this report"
    ok (
      row.job_id,
      record {
        jobs = put (deleted_row row ctx now) db.jobs;
        reports = put (record report { result_payload = none }) db.reports;
      },
    )
