-- ===== src/Jobs/Service/Tasks.antt =====
-- The state of a job that a task may count on, and the sessions that keep it.
use mathlib.Core.Path.{subst₂}
use becertain.Prelude.{
  ℕ, ◌≡◌, refl, ◌≢◌, none, some, List, [], ◌∷◌, false, inl, inr, arith, ◌==◌, Bool-cases,
  Option-cases, ap, ◌∙◌, String, All,
}
use becertain.Prelude.Table.{
  get, put, add, get-put_ne, erase, get-put, get-add, key-get, get-erase_ne, get-erase_self,
  All-get,
}
use becertain.Http.{ok}
use becertain.Jobs.Rows.{JobStatus, RcaJob, Db, Env, Caller, job_keyed, report_keyed, is_finished}
use becertain.Jobs.Marks.{
  mark_running, mark_completed, mark_failed, mark_cancelled, cleanup_retention, running_row,
  completed_row, failed_row, cancelled_row,
}
use becertain.Jobs.Marks.Maintenance.{get-cleanup_retention}
use becertain.Jobs.Access.{create, new_job, delete_report, deleted_row}
use becertain.Jobs.Access.Rights.{delete_report_allowed}
use becertain.Jobs.Service.{Stage, task, task_keyed, Service, IsFresh}
use becertain.Jobs.Service.Sound.{is_settled, ReportFits, DbIsSound, HasUniqueKeys-ids}
use becertain.Jobs.Service.Upkeep.{delete_report-eq}

module _ {J : Type 0} where
  -- What a task's stage says of its job.
  abbrev pub TaskFits : Stage → ℕ → List (RcaJob J) → Type 0
  TaskFits Stage.waiting j rows =
      (row : RcaJob J) × (get j rows ≡ some row) × (row.status ≡ JobStatus.queued)
  TaskFits Stage.analysing j rows =
      (row : RcaJob J) × (get j rows ≡ some row) × (row.status ≡ JobStatus.running)
  TaskFits Stage.storing j rows = Unit

  pub record IsSound (s : Service J) : Type 0 where
    pub tables : DbIsSound s.db
    pub tasks_fit :
        (j : ℕ) (stage : Stage) → get j s.tasks ≡ some (task j stage) → TaskFits stage j s.db.jobs

  -- A session that leaves a queued or running row alone keeps what its task says.
  abbrev Preserves : ℕ → List (RcaJob J) → List (RcaJob J) → Type 0
  Preserves j rows rows' =
      (row : RcaJob J)
      → get j rows ≡ some row
      → is_settled row.status ≡ false
      → is_finished row.status ≡ false
      → get j rows' ≡ some row

  TaskFits-Preserves :
      (stage : Stage) (j : ℕ) (rows rows' : List (RcaJob J))
      → Preserves j rows rows'
      → TaskFits stage j rows
      → TaskFits stage j rows'
  TaskFits-Preserves Stage.waiting j rows rows' same (row, at, status) =
      (row, same row at (rw status refl) (rw status refl), status)
  TaskFits-Preserves Stage.analysing j rows rows' same (row, at, status) =
      (row, same row at (rw status refl) (rw status refl), status)
  TaskFits-Preserves Stage.storing j rows rows' same h = tt

  -- A mark on one job leaves all other rows alone.
  abbrev pub KeepsOthers : ℕ → List (RcaJob J) → List (RcaJob J) → Type 0
  KeepsOthers i rows rows' = (j : ℕ) → i ≢ j → get j rows' ≡ get j rows

  pub mark_running-KeepsOthers :
      (i at : ℕ) (db : Db J) → KeepsOthers i db.jobs (mark_running i at db).jobs
  unfolding mark_running
  mark_running-KeepsOthers i at db j ne = elim (Option-cases (get i db.jobs)) [
    | inl missing ↦ ground arith
    | inr (row, found) ↦
        ground (arith, key-get i row db.jobs found, get-put_ne j (running_row row at) db.jobs)
  ]

  pub get-mark_running :
      (i at : ℕ) (db : Db J) (row : RcaJob J)
      → get i db.jobs ≡ some row
      → row.status ≡ JobStatus.queued
      → get i (mark_running i at db).jobs ≡ some (running_row row at)
  unfolding mark_running
  get-mark_running i at db row found queued =
      ground (arith, key-get i row db.jobs found, get-put i (running_row row at) db.jobs)

  TaskFits-KeepsOthers :
      (i j : ℕ) (stage : Stage) (rows rows' : List (RcaJob J))
      → KeepsOthers i rows rows'
      → i ≢ j
      → TaskFits stage j rows
      → TaskFits stage j rows'
  TaskFits-KeepsOthers i j stage rows rows' others ne =
      TaskFits-Preserves stage j rows rows' (λ row at _ _. others j ne ∙ at)

  -- The task of a marked job moves on to its next stage.
  pub put-tasks_fit :
      (s : Service J) (i : ℕ) (before after : Stage) (rows : List (RcaJob J))
      → IsSound s
      → get i s.tasks ≡ some (task i before)
      → KeepsOthers i s.db.jobs rows
      → TaskFits after i rows
      → (j : ℕ) (stage : Stage) → get j (put (task i after) s.tasks) ≡ some (task j stage)
      → TaskFits stage j rows
  put-tasks_fit s i before after rows sound was others now j stage h = elim (Bool-cases (i == j)) [
    | inl here ↦
        let same : after ≡ stage = ground (arith, get-put j (task i after) s.tasks) in
        let at : i ≡ j = ground arith in subst₂ (λ st k. TaskFits st k rows) same at now
    | inr other ↦
        let old : get j s.tasks ≡ some (task j stage) =
          ground (arith, get-put_ne j (task i after) s.tasks) in
        TaskFits-KeepsOthers i j stage s.db.jobs rows others (ground arith)
          (sound.tasks_fit j stage old)
  ]

  -- The task of a marked job ends.
  pub erase-tasks_fit :
      (s : Service J) (i : ℕ) (rows : List (RcaJob J))
      → IsSound s
      → KeepsOthers i s.db.jobs rows
      → (j : ℕ) (stage : Stage) → get j (erase i s.tasks) ≡ some (task j stage)
      → TaskFits stage j rows
  erase-tasks_fit s i rows sound others j stage h = elim (Bool-cases (i == j)) [
    | inl here ↦ absurd (ground (arith, get-erase_self i s.tasks))
    | inr other ↦
        let old : get j s.tasks ≡ some (task j stage) = ground (arith, get-erase_ne j i s.tasks) in
        TaskFits-KeepsOthers i j stage s.db.jobs rows others (ground arith)
          (sound.tasks_fit j stage old)
  ]

module _ {J : Type 0} (env : Env J) where
  pub mark_completed-KeepsOthers :
      (i at : ℕ) (result : J) (db : Db J)
      → KeepsOthers i db.jobs (mark_completed env i at result db).jobs
  unfolding mark_completed
  mark_completed-KeepsOthers i at result db j ne = elim (Option-cases (get i db.jobs)) [
    | inl missing ↦ ground arith
    | inr (row, found) ↦
        ground (
          arith,
          key-get i row db.jobs found,
          get-put_ne j (completed_row env row at result) db.jobs,
        )
  ]

  pub mark_failed-KeepsOthers :
      (i at : ℕ) (message : String) (db : Db J)
      → KeepsOthers i db.jobs (mark_failed env i at message db).jobs
  unfolding mark_failed
  mark_failed-KeepsOthers i at message db j ne = elim (Option-cases (get i db.jobs)) [
    | inl missing ↦ ground arith
    | inr (row, found) ↦
        ground
          (arith, key-get i row db.jobs found, get-put_ne j (failed_row env row at message) db.jobs)
  ]

  pub mark_cancelled-KeepsOthers :
      (i at : ℕ) (message : String) (db : Db J)
      → KeepsOthers i db.jobs (mark_cancelled env i at message db).jobs
  unfolding mark_cancelled
  mark_cancelled-KeepsOthers i at message db j ne = elim (Option-cases (get i db.jobs)) [
    | inl missing ↦ ground arith
    | inr (row, found) ↦ ground (
      arith,
      key-get i row db.jobs found,
      get-put_ne j (cancelled_row env row at message) db.jobs,
    )
  ]

  get-fresh :
      (i report_id : ℕ) (rows : List (RcaJob J))
      → All (λ row. (row.job_id ≢ i) × (row.report_id ≢ report_id)) rows
      → get i rows ≡ none
  get-fresh i report_id [] h = refl
  get-fresh i report_id (r ∷ rs) h = ground (arith, h.0.0, get-fresh i report_id rs h.1)

  pub creates-tasks_fit :
      (s : Service J) (ctx : Caller) (payload : J) (i report_id now : ℕ)
      → IsFresh i report_id s
      → IsSound s
      → (j : ℕ) (stage : Stage) → get j (add (task i Stage.waiting) s.tasks) ≡ some (task j stage)
      → TaskFits stage j (create env ctx payload i report_id now s.db).1.jobs
  unfolding create
  creates-tasks_fit s ctx payload i report_id now fresh sound j stage h =
      let row : RcaJob J = new_job env ctx payload i report_id now in
      elim (Option-cases (get j s.tasks)) [
        | inr (old, found) ↦
            let same : old ≡ task j stage =
              ground (arith, get-add j (task i Stage.waiting) s.tasks) in
            TaskFits-Preserves stage j s.db.jobs (add row s.db.jobs)
              (λ r at _ _. rw (get-add j row s.db.jobs, at) refl)
              (sound.tasks_fit j stage (found ∙ ap some same))
        | inl missing ↦ elim (Bool-cases (i == j)) [
          | inl here ↦
              let same : Stage.waiting ≡ stage =
                ground (arith, get-add j (task i Stage.waiting) s.tasks) in
              let at : i ≡ j = ground arith in
              let free = get-fresh i report_id s.db.jobs fresh.0 in
              subst₂ (λ st k. TaskFits st k (add row s.db.jobs)) same at
                (row, ground (arith, get-add i row s.db.jobs), refl)
          | inr other ↦ absurd (ground (arith, get-add j (task i Stage.waiting) s.tasks))
        ]
      ]

  pub cleans-tasks_fit :
      (s : Service J) (now : ℕ)
      → IsSound s
      → (j : ℕ) (stage : Stage) → get j s.tasks ≡ some (task j stage)
      → TaskFits stage j (cleanup_retention env now s.db).jobs
  cleans-tasks_fit s now sound j stage h =
      TaskFits-Preserves stage j s.db.jobs _
        (λ row at _ unfinished.
          rw
            (
              get-cleanup_retention env now j s.db (HasUniqueKeys-ids s.db.jobs sound.tables.keys),
              at,
            )
            (ground arith))
        (sound.tasks_fit j stage h)

  pub deletes-tasks_fit :
      (s : Service J) (report_id i now : ℕ) (ctx : Caller) (db' : Db J)
      → delete_report report_id ctx now s.db ≡ ok (i, db')
      → IsSound s
      → (j : ℕ) (stage : Stage) → get j s.tasks ≡ some (task j stage)
      → TaskFits stage j db'.jobs
  deletes-tasks_fit s report_id i now ctx db' h sound j stage t =
      let (report, gone, found, found_row, _, _, _) =
        delete_report_allowed report_id ctx now s.db db' i h in
      let (job, job_at, _, _, settled, _) =
        All-get (ReportFits s.db.jobs) report_id s.db.reports report sound.tables.fit found in
      let gone' = deleted_row gone ctx now in
      let wrote =
        ap (λ d. d.jobs)
          (delete_report-eq report_id ctx now s.db db' i report gone found found_row h) in
      let id = key-get report.job_id gone s.db.jobs found_row in
      TaskFits-Preserves stage j s.db.jobs db'.jobs
        (λ row at unsettled _. ap (get j) wrote ∙ ground (arith, get-put_ne j gone' s.db.jobs))
        (sound.tasks_fit j stage t)
