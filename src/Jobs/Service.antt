-- ===== src/Jobs/Service.antt =====
-- The service while it runs: the database and the dict `_tasks`. Every interleaving of `create_job`,
-- the tasks of `_run_job`, `delete_report`, the retention loop and a restart is a sequence of the
-- steps below. Each step is one database session with the change of `_tasks` that goes with it.
pub mod Sound
pub mod Sessions
pub mod Upkeep
pub mod Tasks
pub mod Final
pub mod Progress
pub mod Reached
use becertain.Prelude.{ℕ, ◌≡◌, ◌≢◌, String, none, some, List, [], All}
use becertain.Prelude.Table.{Keyed, get, put, add, erase}
use becertain.Http.{ok}
use becertain.Jobs.Rows.{Db, Env, Caller, job_keyed, report_keyed}
use becertain.Jobs.Marks.{
  mark_running, mark_completed, mark_failed, mark_cancelled, startup_recovery, cleanup_retention,
}
use becertain.Jobs.Access.{create, delete_report}

-- Where `_run_job` stands: before `_mark_running`, inside the analysis, or behind
-- `_mark_completed` with the cancellation handler still in force.
pub data Stage : Type 0 where
  waiting analysing storing : Stage

pub record Task : Type 0 where
  pub job_id : ℕ
  pub stage : Stage

instance abbrev pub task_keyed : Keyed Task
task_keyed = record { key = λ t. t.job_id }

pub record Service (J : Type 0) : Type 0 where
  pub db : Db J
  pub tasks : List Task

abbrev pub task : ℕ → Stage → Task
task job_id stage = record { job_id = job_id; stage = stage }

-- The ids that `uuid4` gives to a new job are in use nowhere.
abbrev pub IsFresh : {J : Type 0} → ℕ → ℕ → Service J → Type 0
IsFresh job_id report_id s =
    All (λ row. (row.job_id ≢ job_id) × (row.report_id ≢ report_id)) s.db.jobs
    × (get job_id s.tasks ≡ none)

module _ {J : Type 0} (env : Env J) where
  pub data Step (s u : Service J) : Type 0 where
    -- `create_job`: the row is committed and the task registered
    creates :
        (ctx : Caller) (payload : J) (job_id report_id now : ℕ)
        → IsFresh job_id report_id s
        → u ≡ record {
          db = (create env ctx payload job_id report_id now s.db).1;
          tasks = add (task job_id Stage.waiting) s.tasks;
        }
        → Step s u
    -- `_run_job` up to `_mark_running`
    begins :
        (job_id at : ℕ)
        → get job_id s.tasks ≡ some (task job_id Stage.waiting)
        → u ≡ record {
          db = mark_running job_id at s.db;
          tasks = put (task job_id Stage.analysing) s.tasks;
        }
        → Step s u
    -- the analysis returned a result
    completes :
        (job_id at : ℕ) (result : J)
        → get job_id s.tasks ≡ some (task job_id Stage.analysing)
        → u ≡ record {
          db = mark_completed env job_id at result s.db;
          tasks = put (task job_id Stage.storing) s.tasks;
        }
        → Step s u
    -- the analysis raised, or ran into its timeout
    fails :
        (job_id at : ℕ) (message : String)
        → get job_id s.tasks ≡ some (task job_id Stage.analysing)
        → u ≡ record { db = mark_failed env job_id at message s.db; tasks = erase job_id s.tasks }
        → Step s u
    -- `CancelledError` inside the guarded block
    cancels :
        (job_id at : ℕ) (stage : Stage)
        → get job_id s.tasks ≡ some (task job_id stage)
        → stage ≢ Stage.waiting
        → u ≡ record {
          db = mark_cancelled env job_id at "Cancelled by report owner" s.db;
          tasks = erase job_id s.tasks;
        }
        → Step s u
    -- `finally`: the task ends with no further session, because the row is gone, because it was
    -- cancelled outside the guarded block, or because it is done
    ends : (job_id : ℕ) → u ≡ record s { tasks = erase job_id s.tasks } → Step s u
    deletes :
        (report_id job_id now : ℕ) (ctx : Caller) (db' : Db J)
        → delete_report report_id ctx now s.db ≡ ok (job_id, db')
        → u ≡ record s { db = db' }
        → Step s u
    cleans : (now : ℕ) → u ≡ record s { db = cleanup_retention env now s.db } → Step s u
    -- a process restart, with `startup_recovery`
    restarts : (now : ℕ) → u ≡ record { db = startup_recovery env now s.db; tasks = [] } → Step s u

  abbrev pub started : Service J
  started = record { db = record { jobs = []; reports = [] }; tasks = [] }

  pub data Reach : Service J → Type 0 where
    start : Reach started
    next : {s u : Service J} → Reach s → Step s u → Reach u
