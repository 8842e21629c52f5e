-- ===== src/Jobs/Tests.antt =====
-- The job service at concrete inputs: runs, and the theorems where their hypotheses hold.
use Prim.Native.Char.{code}
use becertain.Prelude.{
  ℕ, zero, suc, ◌==◌, if◌then◌else◌, ap, ◌∙◌, ◌+◌, ◌≡◌, refl, ◌≢◌, ◌↔◌, ◌⊎◌, String, none, some, [],
  ◌∷◌, true, false, map, filter, arith, ◌/◌, str_eq, cons-eq-empty,
}
use becertain.Prelude.Table.{get}
use becertain.Http.{ok, raised, http_error}
use becertain.Jobs.Rows.{
  JobStatus, RcaJob, RcaReport, Db, Env, Caller, to_view, job_keyed, report_keyed, is_finished,
  is_pending,
}
use becertain.Jobs.Marks.{
  mark_running, mark_completed, mark_failed, mark_cancelled, startup_recovery, cleanup_retention,
}
use becertain.Jobs.Marks.Maintenance.{
  startup_recovery_lem, cleanup_retention_jobs, IsRemovable, IsRetained,
}
use becertain.Jobs.Access.{
  create, new_job, get_job, get_job_result, delete_report, payload_of, deleted_row,
}
use becertain.Jobs.Access.Rights.{get_job_iff, delete_report_allowed}
use becertain.Jobs.Access.Deletion.{get_job_result-mark_completed, delete_report_final}
use becertain.Store.Documents.{◌>>=◌}
use becertain.Jobs.Listing.{
  CursorCodec, Decoding, page_from, list_jobs, follow, select_rows, sort_rows, is_listed,
}
use becertain.Jobs.Listing.Order.{IsDescending}
use becertain.Jobs.Listing.Follow.{follow-eq-select}
use becertain.Jobs.Service.{
  Stage, task, task_keyed, Service, Reach, creates, begins, completes, restarts, start, next,
}
use becertain.Jobs.Service.Sound.{is_settled}
use becertain.Jobs.Service.Tasks.{IsSound}
use becertain.Jobs.Service.Reached.{Reach-IsSound}
use becertain.Jobs.Service.Final.{delete_report_settled, IsDeleted, Step-IsDeleted}

abbrev env : Env String
env = record {
  report_retention_days = 7;
  job_ttl_days = 30;
  to_milliseconds = λ us. us / 1000;
  summary_text = λ text. text;
  canonical_sha256 = λ text. text;
}

abbrev owner : Caller
owner = record { tenant_id = "acme"; user_id = "ann"; is_superuser = false }

abbrev queued_row : RcaJob String
queued_row = new_job env owner "request" 1 10 100

abbrev queued_db : Db String
queued_db = record { jobs = queued_row ∷ []; reports = [] }

abbrev running_db : Db String
running_db = record {
  jobs = record queued_row { status = JobStatus.running; started_at = some 5100 } ∷ [];
  reports = [];
}

abbrev done_row : RcaJob String
done_row = record queued_row {
  status = JobStatus.completed;
  started_at = some 5100;
  finished_at = some 9100;
  duration_ms = some 4;
  summary_preview = some "disk full";
}

abbrev report : RcaReport String
report = record {
  report_id = 10;
  job_id = 1;
  tenant_id = "acme";
  owner_user_id = "ann";
  result_payload = some "disk full";
  created_at = 9100;
  expires_at = some 604_800_009_100;
}

abbrev done_db : Db String
done_db = record { jobs = done_row ∷ []; reports = report ∷ [] }

abbrev deleted_db : Db String
deleted_db = record {
  jobs = deleted_row done_row owner 9500 ∷ [];
  reports = record report { result_payload = none } ∷ [];
}

worker_run : mark_completed env 1 9100 "disk full" (mark_running 1 5100 queued_db) ≡ done_db
unfolding mark_completed mark_running
worker_run = refl

deletion_run : delete_report 10 owner 9500 done_db ≡ ok (1, deleted_db)
unfolding delete_report
deletion_run = refl

abbrev done_service : Service String
done_service = record { db = done_db; tasks = task 1 Stage.storing ∷ [] }

-- The life of one job, step by step.
life : Reach env done_service
unfolding create mark_running mark_completed
life =
    next
      (next (next start (creates owner "request" 1 10 100 (tt, refl) refl))
        (begins 1 5100 refl refl))
      (completes 1 9100 "disk full" refl refl)

abbrev created_service : Service String
created_service = record { db = queued_db; tasks = task 1 Stage.waiting ∷ [] }

Reach-IsSound_example : IsSound done_service
Reach-IsSound_example = Reach-IsSound env life

delete_report_settled_example :
    ((row : RcaJob String) × (get 1 done_db.jobs ≡ some row) × (is_settled row.status ≡ true))
    × ((stage : Stage) → get 1 done_service.tasks ≡ some (task 1 stage) → stage ≡ Stage.storing)
delete_report_settled_example =
    delete_report_settled env done_service 10 owner 9500 1 deleted_db life deletion_run

abbrev deleted_service : Service String
deleted_service = record { db = deleted_db; tasks = [] }

abbrev restarted_service : Service String
restarted_service = record { db = startup_recovery env 9900 deleted_db; tasks = [] }

Step-IsDeleted_example :
    IsDeleted env 1 restarted_service
    ⊎ ((now : ℕ) × (restarted_service
          ≡ record deleted_service { db = cleanup_retention env now deleted_service.db })
        × (get 1 restarted_service.db.jobs ≡ none))
Step-IsDeleted_example =
    Step-IsDeleted env {s = deleted_service} 1 (restarts 9900 refl)
      (deleted_row done_row owner 9500, refl, refl)

delete_report_final_example :
    (get_job 1 owner deleted_db ≡ raised (http_error 404 "RCA job not found"))
    × (get_job_result 1 owner deleted_db ≡ raised (http_error 404 "RCA job not found"))
    × (payload_of (get 10 deleted_db.reports) ≡ none)
    × (mark_running 1 9600 deleted_db ≡ deleted_db)
    × (mark_completed env 1 9600 "late" deleted_db ≡ deleted_db)
    × (mark_failed env 1 9600 "late" deleted_db ≡ deleted_db)
    × (mark_cancelled env 1 9600 "late" deleted_db ≡ deleted_db)
delete_report_final_example =
    delete_report_final env 10 owner 9500 done_db deleted_db 1 deletion_run owner 9600 "late" "late"

get_job_result-mark_completed_example :
    get_job_result 1 owner (mark_completed env 1 9100 "disk full" running_db)
    ≡ ok (to_view done_row, "disk full")
get_job_result-mark_completed_example =
    get_job_result-mark_completed env 1 9100 "disk full" owner running_db
      (record queued_row { status = JobStatus.running; started_at = some 5100 }) refl refl refl

get_job_iff_example : (get_job 1 owner done_db ≡ ok (to_view done_row)) ↔ (
    (row : RcaJob String) × (get 1 done_db.jobs ≡ some row)
    × (row.status ≢ JobStatus.deleted)
    × (row.tenant_id ≡ owner.tenant_id)
    × (to_view done_row ≡ to_view row))
get_job_iff_example = get_job_iff 1 owner done_db (to_view done_row)

delete_report_allowed_example :
    (r : RcaReport String) × (row : RcaJob String) × (get 10 done_db.reports ≡ some r)
    × (get r.job_id done_db.jobs ≡ some row)
    × (r.tenant_id ≡ owner.tenant_id)
    × ((row.requested_by ≡ owner.user_id) ⊎ (owner.is_superuser ≡ true))
    × (row.job_id ≡ 1)
delete_report_allowed_example =
    delete_report_allowed 10 owner 9500 done_db deleted_db 1 deletion_run

startup_recovery_lem_example :
    (row : RcaJob String) × (get 1 (startup_recovery env 9000 queued_db).jobs ≡ some row)
    × (is_finished row.status ≡ true)
    × (is_finished JobStatus.queued ≡ true → row ≡ queued_row)
    × (is_pending JobStatus.queued ≡ true
        → (row.status ≡ JobStatus.failed)
          × (row.finished_at ≡ some 9000)
          × (row.error ≡ some "Interrupted due to process restart before completion"))
startup_recovery_lem_example = startup_recovery_lem env 9000 1 queued_db queued_row refl

cleanup_retention_jobs_example :
    let after = get 1 (cleanup_retention env 3_000_000_000_000 done_db).jobs in
    (IsRemovable env 3_000_000_000_000 done_row → after ≡ none)
    × (IsRetained env 3_000_000_000_000 done_row → after ≡ some done_row)
cleanup_retention_jobs_example =
    cleanup_retention_jobs env 3_000_000_000_000 1 done_db done_row (tt, tt) refl

-- A codec that writes the two numbers in unary, with a mark between them.
marks : ℕ → String → String
marks zero t = t
marks (suc n) t = String.◌∷◌ "x" (marks n t)

read_second : ℕ → ℕ → String → Decoding
read_second a b String.[] = Decoding.at a b
read_second a b (String.◌∷◌ c s) = read_second a (suc b) s

read_first : ℕ → String → Decoding
unfolding read_second
read_first a String.[] = Decoding.undecodable
read_first a (String.◌∷◌ c s) =
    let more = read_first (suc a) s in
    if code c == b'x'
    then more
    else if code c == b'y'
    then read_second a 0 s
    else Decoding.no_object

read_first-marks : (a n : ℕ) (t : String) → read_first a (marks n t) ≡ read_first (a + n) t
unfolding marks read_first
read_first-marks a zero t = ap (λ m. read_first m t) (omega arith)
read_first-marks a (suc n) t = read_first-marks (suc a) n t ∙ ap (λ m. read_first m t) (omega arith)

read_second-marks : (a b n : ℕ) → read_second a b (marks n "") ≡ Decoding.at a (b + n)
unfolding marks read_second
read_second-marks a b zero = ground arith
read_second-marks a b (suc n) = read_second-marks a (suc b) n ∙ ground arith

abbrev encode : ℕ → ℕ → String
encode a b = marks a (String.◌∷◌ "y" (marks b ""))

decode-encode : (a b : ℕ) → read_first 0 (encode a b) ≡ Decoding.at a b
unfolding read_first
decode-encode a b = read_first-marks 0 a _ ∙ read_second-marks (0 + a) 0 b ∙ ground arith

encode-nonempty : (a b : ℕ) → str_eq (encode a b) "" ≡ false
unfolding marks
encode-nonempty zero b = cons-eq-empty _ _
encode-nonempty (suc a) b = cons-eq-empty _ _

abbrev codec : CursorCodec
codec = record {
  encode = encode;
  decode = read_first 0;
  decode-encode = decode-encode;
  encode-nonempty = encode-nonempty;
}

abbrev three_jobs : Db String
three_jobs = record {
  jobs =
      new_job env owner "a" 1 11 5
      ∷ new_job env owner "b" 3 13 9
      ∷ new_job env (record owner { user_id = "bob" }) "d" 4 14 9
      ∷ new_job env owner "c" 2 12 9
      ∷ [];
  reports = [];
}

-- Pages of one: job 3, then 2, then 1.
listing_run :
    (follow codec 9 owner none 1 none three_jobs >>= λ views. some (map (λ v. v.job_id) views))
    ≡ some (3 ∷ 2 ∷ 1 ∷ [])
unfolding follow list_jobs page_from select_rows read_first marks
listing_run = refl

-- A cursor that decodes to a list is an error of the server.
list_run : list_jobs codec owner none 1 (some "[]") three_jobs ≡ none
unfolding list_jobs read_first
list_run = refl

follow-eq-select_example :
    (follow codec 9 owner none 1 none three_jobs
      ≡ some (map to_view (sort_rows (filter (is_listed owner none) three_jobs.jobs))))
    × IsDescending (sort_rows (filter (is_listed owner none) three_jobs.jobs))
follow-eq-select_example =
    follow-eq-select codec owner none 1 three_jobs 9 (omega arith) (omega arith)
