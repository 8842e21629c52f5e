-- ===== src/Jobs/Service/Progress.antt =====
-- That a task can always come to its end.
use becertain.Prelude.{Option, ℕ, ◌≡◌, none, some}
use becertain.Prelude.Table.{get}
use becertain.Jobs.Rows.{JobStatus, RcaJob, Env, Caller, to_view, job_keyed, report_keyed}
use becertain.Jobs.Service.{task_keyed, Service, Step, begins, completes, fails, cancels, ends}
use becertain.Http.{ok}
use becertain.Jobs.Access.{get_job_result}

module _ {J : Type 0} (env : Env J) where
  -- The job whose task takes a step; `none` for the steps of requests and of the upkeep.
  abbrev pub task_of : {s u : Service J} → Step env s u → Option ℕ
  task_of (begins i at task_at e) = some i
  task_of (completes i at result task_at e) = some i
  task_of (fails i at message task_at e) = some i
  task_of (cancels i at stage task_at running e) = some i
  task_of (ends i e) = some i
  task_of _ = none

  -- Steps of the task of one job, that follow one another.
  pub data Steps (i : ℕ) : Service J → Service J → Type 0 where
    stay : {s : Service J} → Steps i s s
    step : {s u v : Service J} (t : Step env s u) → task_of t ≡ some i → Steps i u v → Steps i s v

  -- The job is completed at that instant, a caller of its tenant gets the result, and its task is
  -- gone.
  abbrev pub IsDone : ℕ → ℕ → J → Service J → Type 0
  IsDone i at result u =
      ((row : RcaJob J) × (get i u.db.jobs ≡ some row)
        × (row.status ≡ JobStatus.completed)
        × (row.finished_at ≡ some at)
        × ((ctx : Caller)
            → row.tenant_id ≡ ctx.tenant_id
            → get_job_result i ctx u.db ≡ ok (to_view row, result)))
      × (get i u.tasks ≡ none)
