-- ===== src/Jobs/Rows.antt =====
-- The rows of db_models.py, the job states, the views, and what the service reads from its
-- surroundings.
use becertain.Prelude.{ℕ, ◌-◌, ◌*◌, String, Option, List, Bool, true, false, if◌then◌else◌, ltb}
use becertain.Prelude.Table.{Keyed}

pub data JobStatus : Type 0 where
  queued running completed failed cancelled deleted : JobStatus

-- Instants are microseconds since the epoch, in UTC. A UUID in canonical text form is the number
-- that it spells, so that the order of the texts is the order of the numbers. `J` is the type of
-- the JSON documents.
pub record RcaJob (J : Type 0) : Type 0 where
  pub job_id : ℕ
  pub report_id : ℕ
  pub tenant_id : String
  pub requested_by : String
  pub status : JobStatus
  pub created_at : ℕ
  pub started_at : Option ℕ
  pub finished_at : Option ℕ
  pub duration_ms : Option ℕ
  pub request_fingerprint : String
  pub request_payload : J
  pub summary_preview : Option String
  pub error : Option String
  pub deleted_at : Option ℕ
  pub delete_requested_by : Option String

pub record RcaReport (J : Type 0) : Type 0 where
  pub report_id : ℕ
  pub job_id : ℕ
  pub tenant_id : String
  pub owner_user_id : String
  pub result_payload : Option J
  pub created_at : ℕ
  pub expires_at : Option ℕ

pub record Db (J : Type 0) : Type 0 where
  pub jobs : List (RcaJob J)
  pub reports : List (RcaReport J)

instance abbrev pub job_keyed : {J : Type 0} → Keyed (RcaJob J)
job_keyed = record { key = λ r. r.job_id }

instance abbrev pub report_keyed : {J : Type 0} → Keyed (RcaReport J)
report_keyed = record { key = λ r. r.report_id }

-- The settings that the service reads, and the code that is not the repository's: `int` of the
-- milliseconds of a timedelta (a product of floats), `str(result.get("summary") or "")`, and the
-- fingerprint (canonical JSON under SHA-256). A negative number of days acts as 0 in every use.
pub record Env (J : Type 0) : Type 0 where
  pub report_retention_days : ℕ
  pub job_ttl_days : ℕ
  pub to_milliseconds : ℕ → ℕ
  pub summary_text : J → String
  pub canonical_sha256 : J → String

-- `InternalContext` of services/security_service.py, the part that the jobs read
pub record Caller : Type 0 where
  pub tenant_id : String
  pub user_id : String
  pub is_superuser : Bool

pub record JobView : Type 0 where
  pub job_id : ℕ
  pub report_id : ℕ
  pub status : JobStatus
  pub created_at : ℕ
  pub tenant_id : String
  pub requested_by : String
  pub started_at : Option ℕ
  pub finished_at : Option ℕ
  pub duration_ms : Option ℕ
  pub error : Option String
  pub summary_preview : Option String

abbrev pub to_view : {J : Type 0} → RcaJob J → JobView
to_view row = record {
  job_id = row.job_id;
  report_id = row.report_id;
  status = row.status;
  created_at = row.created_at;
  tenant_id = row.tenant_id;
  requested_by = row.requested_by;
  started_at = row.started_at;
  finished_at = row.finished_at;
  duration_ms = row.duration_ms;
  error = row.error;
  summary_preview = row.summary_preview;
}

abbrev pub duration : {J : Type 0} → Env J → ℕ → ℕ → ℕ
duration env start end = if ltb end start then 0 else env.to_milliseconds (end - start)

abbrev pub day : ℕ
day = 24 * 3600 * 1_000_000

-- `row.status in {DELETED, CANCELLED}`
abbrev pub is_withdrawn : JobStatus → Bool
is_withdrawn JobStatus.deleted = true
is_withdrawn JobStatus.cancelled = true
is_withdrawn _ = false

abbrev pub is_deleted : JobStatus → Bool
is_deleted JobStatus.deleted = true
is_deleted _ = false

abbrev pub is_completed : JobStatus → Bool
is_completed JobStatus.completed = true
is_completed _ = false

-- `RcaJob.status.in_([QUEUED, RUNNING])`
abbrev pub is_pending : JobStatus → Bool
is_pending JobStatus.queued = true
is_pending JobStatus.running = true
is_pending _ = false

-- `RcaJob.status.in_([COMPLETED, FAILED, CANCELLED, DELETED])`
abbrev pub is_finished : JobStatus → Bool
is_finished JobStatus.completed = true
is_finished JobStatus.failed = true
is_finished JobStatus.cancelled = true
is_finished JobStatus.deleted = true
is_finished _ = false

abbrev pub status_eq : JobStatus → JobStatus → Bool
status_eq JobStatus.queued JobStatus.queued = true
status_eq JobStatus.running JobStatus.running = true
status_eq JobStatus.completed JobStatus.completed = true
status_eq JobStatus.failed JobStatus.failed = true
status_eq JobStatus.cancelled JobStatus.cancelled = true
status_eq JobStatus.deleted JobStatus.deleted = true
status_eq _ _ = false
