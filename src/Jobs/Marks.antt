-- ===== src/Jobs/Marks.antt =====
-- The transactions of the worker, `_mark_running` to `_mark_cancelled`, and the maintenance
-- transactions, `_startup_recovery_sync` and `_cleanup_retention_sync`. Each is one database
-- session: it commits as a whole.
pub mod Maintenance
use becertain.Prelude.{
  ℕ, ◌+◌, ◌-◌, ◌*◌, String, Option, none, some, List, [], ◌∷◌, Bool, ◌&&◌, map, max, if◌then◌else◌,
  ltb, text_take, text_or, text_or_none, or_else, filter, not, ◌==◌,
}
use becertain.Prelude.Table.{get, put, add, erase}
use becertain.Jobs.Rows.{
  JobStatus, RcaJob, RcaReport, Db, Env, job_keyed, report_keyed, duration, day, is_withdrawn,
  is_deleted, is_pending, is_finished,
}

module _ {J : Type 0} where
  abbrev pub save_job : RcaJob J → Db J → Db J
  save_job row db = record db { jobs = put row db.jobs }

  abbrev pub running_row : RcaJob J → ℕ → RcaJob J
  running_row row started_at = record row {
    status = JobStatus.running;
    started_at = some started_at;
    error = none;
  }

  unfoldable pub mark_running : ℕ → ℕ → Db J → Db J
  mark_running job_id started_at db = elim (get job_id db.jobs) [
    | none ↦ db
    | some row ↦ if is_withdrawn row.status then db else save_job (running_row row started_at) db
  ]

  -- `db.delete(job)`; the report goes with its job by the cascade of db_models.py
  abbrev pub delete_job : RcaJob J → Db J → Db J
  delete_job row db = record {
    jobs = erase row.job_id db.jobs;
    reports = filter (λ report. not (report.job_id == row.job_id)) db.reports;
  }

  unfoldable pub delete_jobs : List (RcaJob J) → Db J → Db J
  delete_jobs [] db = db
  delete_jobs (row ∷ rows) db = delete_jobs rows (delete_job row db)

module _ {J : Type 0} (env : Env J) where
  -- `row.started_at or row.created_at` to the end, in milliseconds
  abbrev pub elapsed : RcaJob J → ℕ → ℕ
  elapsed row end = duration env (or_else row.started_at row.created_at) end

  -- The report's expiry: none where reports are kept for ever.
  abbrev pub expiry : ℕ → Option ℕ
  expiry finished_at =
      if ltb 0 env.report_retention_days
      then some (finished_at + env.report_retention_days * day)
      else none

  abbrev pub new_report : RcaJob J → ℕ → J → RcaReport J
  new_report row finished_at result = record {
    report_id = row.report_id;
    job_id = row.job_id;
    tenant_id = row.tenant_id;
    owner_user_id = row.requested_by;
    result_payload = some result;
    created_at = finished_at;
    expires_at = expiry finished_at;
  }

  abbrev pub renewed_report : RcaReport J → ℕ → J → RcaReport J
  renewed_report existing finished_at result = record existing {
    result_payload = some result;
    expires_at = expiry finished_at;
  }

  -- The insertion of a new report, or the update of the one that is there.
  abbrev pub store_report : RcaJob J → ℕ → J → List (RcaReport J) → List (RcaReport J)
  store_report row finished_at result reports = elim (get row.report_id reports) [
    | none ↦ add (new_report row finished_at result) reports
    | some existing ↦ put (renewed_report existing finished_at result) reports
  ]

  abbrev pub completed_row : RcaJob J → ℕ → J → RcaJob J
  completed_row row finished_at result = record row {
    status = JobStatus.completed;
    finished_at = some finished_at;
    duration_ms = some (elapsed row finished_at);
    summary_preview = text_or_none (text_take 280 (env.summary_text result));
    error = none;
  }

  unfoldable pub mark_completed : ℕ → ℕ → J → Db J → Db J
  mark_completed job_id finished_at result db = elim (get job_id db.jobs) [
    | none ↦ db
    | some row ↦ if is_withdrawn row.status then db else record {
      jobs = put (completed_row row finished_at result) db.jobs;
      reports = store_report row finished_at result db.reports;
    }
  ]

  abbrev pub failed_row : RcaJob J → ℕ → String → RcaJob J
  failed_row row finished_at error = record row {
    status = JobStatus.failed;
    finished_at = some finished_at;
    duration_ms = some (elapsed row finished_at);
    error = some (text_take 500 (text_or error "Analysis failed"));
  }

  unfoldable pub mark_failed : ℕ → ℕ → String → Db J → Db J
  mark_failed job_id finished_at error db = elim (get job_id db.jobs) [
    | none ↦ db
    | some row ↦
        if is_withdrawn row.status then db else save_job (failed_row row finished_at error) db
  ]

  abbrev pub cancelled_row : RcaJob J → ℕ → String → RcaJob J
  cancelled_row row finished_at error = record row {
    status = JobStatus.cancelled;
    finished_at = some finished_at;
    duration_ms = some (elapsed row finished_at);
    error = some (text_take 500 error);
  }

  unfoldable pub mark_cancelled : ℕ → ℕ → String → Db J → Db J
  mark_cancelled job_id finished_at error db = elim (get job_id db.jobs) [
    | none ↦ db
    | some row ↦
        if is_deleted row.status then db else save_job (cancelled_row row finished_at error) db
  ]

  -- `_startup_recovery_sync`, for one row
  abbrev pub recover_row : ℕ → RcaJob J → RcaJob J
  recover_row now row =
      if is_pending row.status
      then record row {
        status = JobStatus.failed;
        finished_at = some now;
        error = some "Interrupted due to process restart before completion";
        duration_ms = some (elapsed row now);
      }
      else row

  unfoldable pub startup_recovery : ℕ → Db J → Db J
  startup_recovery now db = record db { jobs = map (recover_row now) db.jobs }

  -- A report is expired by its own date, or by its age where it has none.
  abbrev pub is_expired : ℕ → RcaReport J → Bool
  is_expired now report = elim report.expires_at [
    | some at ↦ ltb at now
    | none ↦ ltb report.created_at (now - env.report_retention_days * day)
  ]

  abbrev pub expire_report : ℕ → RcaReport J → RcaReport J
  expire_report now report =
      if is_expired now report then record report { result_payload = none } else report

  -- `RcaJob.created_at < job_cutoff` and a finished state
  abbrev pub is_stale : ℕ → RcaJob J → Bool
  is_stale now row =
      ltb row.created_at (now - max 1 env.job_ttl_days * day) && is_finished row.status

  unfoldable pub cleanup_retention : ℕ → Db J → Db J
  unfolding delete_jobs
  cleanup_retention now db =
      let reports =
        if ltb 0 env.report_retention_days
        then map (expire_report now) db.reports
        else db.reports in
      delete_jobs (filter (is_stale now) db.jobs) (record db { reports = reports })
