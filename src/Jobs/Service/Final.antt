-- ===== src/Jobs/Service/Final.antt =====
-- Consequences for deletion: it reaches only jobs whose analysis is over, and it lasts.
use becertain.Prelude.{
  List, ℕ, ◌≡◌, refl, ◌⊎◌, none, some, inl, inr, true, arith, Bool-cases, ◌==◌, ap, ◌∙◌,
}
use becertain.Prelude.Table.{get, get-put, get-add, get-map, key-get, get-put_ne, All-get}
use becertain.Http.{ok}
use becertain.Jobs.Rows.{JobStatus, RcaJob, Db, Env, Caller, job_keyed, report_keyed}
use becertain.Jobs.Marks.{
  mark_running, mark_completed, mark_failed, mark_cancelled, startup_recovery, recover_row,
  cleanup_retention,
}
use becertain.Jobs.Marks.Maintenance.{cleanup_retention_either}
use becertain.Jobs.Access.{create, new_job, delete_report, deleted_row}
use becertain.Jobs.Access.Rights.{delete_report_allowed}
use becertain.Jobs.Service.{
  Stage, task, task_keyed, Service, Step, Reach, creates, begins, completes, fails, cancels, ends,
  deletes, cleans, restarts,
}
use becertain.Jobs.Service.Sound.{is_settled, ReportFits}
use becertain.Jobs.Service.Upkeep.{delete_report-eq}
use becertain.Jobs.Service.Tasks.{
  TaskFits, KeepsOthers, mark_running-KeepsOthers, mark_completed-KeepsOthers,
  mark_failed-KeepsOthers, mark_cancelled-KeepsOthers,
}
use becertain.Jobs.Service.Reached.{Reach-IsSound}

module _ {J : Type 0} (env : Env J) where
  over :
      (s : Service J) (j : ℕ) (stage : Stage) (job : RcaJob J)
      → get j s.db.jobs ≡ some job
      → is_settled job.status ≡ true
      → TaskFits stage j s.db.jobs
      → stage ≡ Stage.storing
  over s j Stage.waiting job at settled (row, at', status) = absurd (ground arith)
  over s j Stage.analysing job at settled (row, at', status) = absurd (ground arith)
  over s j Stage.storing job at settled fits = refl

  -- In a reachable state `delete_report` succeeds only for a job that is completed, cancelled or
  -- already deleted; so the task that it then cancels, if there is one, has stored its result.
  pub delete_report_settled :
      (s : Service J) (report_id : ℕ) (ctx : Caller) (now : ℕ) (job_id : ℕ) (db' : Db J)
      → Reach env s
      → delete_report report_id ctx now s.db ≡ ok (job_id, db')
      → ((row : RcaJob J) × (get job_id s.db.jobs ≡ some row) × (is_settled row.status ≡ true))
        × ((stage : Stage) → get job_id s.tasks ≡ some (task job_id stage) → stage ≡ Stage.storing)
  delete_report_settled s report_id ctx now job_id db' r h =
      let sound = Reach-IsSound env r in
      let (report, row, found, found_row, _, _, same) =
        delete_report_allowed report_id ctx now s.db db' job_id h in
      let (job, at, _, _, settled, _) =
        All-get (ReportFits s.db.jobs) report_id s.db.reports report sound.tables.fit found in
      let id = key-get report.job_id row s.db.jobs found_row in
      let at_id : get job_id s.db.jobs ≡ some job = ground arith in
      (
        (job, at_id, settled),
        λ stage t. over s job_id stage job at_id settled (sound.tasks_fit job_id stage t),
      )

  abbrev pub IsDeleted : ℕ → Service J → Type 0
  IsDeleted j s = (row : RcaJob J) × (get j s.db.jobs ≡ some row) × (row.status ≡ JobStatus.deleted)

  -- A write by `delete_report` leaves a deleted job deleted.
  delete_report-keeps :
      (report_id i now : ℕ) (ctx : Caller) (db db' : Db J) (j : ℕ) (row : RcaJob J)
      → delete_report report_id ctx now db ≡ ok (i, db')
      → get j db.jobs ≡ some row
      → row.status ≡ JobStatus.deleted
      → (row' : RcaJob J) × (get j db'.jobs ≡ some row') × (row'.status ≡ JobStatus.deleted)
  delete_report-keeps report_id i now ctx db db' j row h at gone =
      let (report, old, found, found_row, _, _, _) =
        delete_report_allowed report_id ctx now db db' i h in
      let new = deleted_row old ctx now in
      let wrote =
        ap (λ d. get j d.jobs)
          (delete_report-eq report_id ctx now db db' i report old found found_row h) in
      let id = key-get report.job_id old db.jobs found_row in
      elim (Bool-cases (old.job_id == j)) [
        | inl here ↦ (new, wrote ∙ ground (arith, get-put j new db.jobs), refl)
        | inr other ↦ (row, wrote ∙ ground (arith, get-put_ne j new db.jobs), gone)
      ]

  -- A mark on any job keeps a row that it does not touch when the row is its own.
  keeps :
      (i j : ℕ) (rows rows' : List (RcaJob J)) (row : RcaJob J)
      → KeepsOthers i rows rows'
      → (get i rows ≡ some row → rows' ≡ rows)
      → get j rows ≡ some row
      → get j rows' ≡ some row
  keeps i j rows rows' row others own at = elim (Bool-cases (i == j)) [
    | inl here ↦
        let same : i ≡ j = ground arith in ap (get j) (own (ap (λ n. get n rows) same ∙ at)) ∙ at
    | inr other ↦ others j (ground arith) ∙ at
  ]

  -- A step of the service leaves a deleted job deleted, or it is the cleanup of the retention, and the
  -- row of the job is gone.
  pub Step-IsDeleted :
      {s u : Service J} (j : ℕ)
      → Step env s u
      → IsDeleted j s
      → IsDeleted j u
        ⊎ ((now : ℕ) × (u ≡ record s { db = cleanup_retention env now s.db })
            × (get j u.db.jobs ≡ none))
  unfolding create mark_running mark_completed mark_failed mark_cancelled startup_recovery
  Step-IsDeleted {s} j (creates ctx payload i report_id now fresh e) (row, at, gone) = inl (
    row,
    ap (λ v. get j v.db.jobs) e
        ∙ rw (get-add j (new_job env ctx payload i report_id now) s.db.jobs, at) refl,
    gone,
  )
  Step-IsDeleted {s} j (begins i t task_at e) (row, at, gone) = inl (
    row,
    ap (λ v. get j v.db.jobs) e
        ∙ keeps i j s.db.jobs _ row (mark_running-KeepsOthers i t s.db) (λ own. ground arith) at,
    gone,
  )
  Step-IsDeleted {s} j (completes i t result task_at e) (row, at, gone) = inl (
    row,
    ap (λ v. get j v.db.jobs) e
        ∙ keeps i j s.db.jobs _ row (mark_completed-KeepsOthers env i t result s.db)
            (λ own. ground arith) at,
    gone,
  )
  Step-IsDeleted {s} j (fails i t message task_at e) (row, at, gone) = inl (
    row,
    ap (λ v. get j v.db.jobs) e
        ∙ keeps i j s.db.jobs _ row (mark_failed-KeepsOthers env i t message s.db)
            (λ own. ground arith) at,
    gone,
  )
  Step-IsDeleted {s} j (cancels i t stage task_at _ e) (row, at, gone) = inl (
    row,
    ap (λ v. get j v.db.jobs) e
        ∙ keeps i j s.db.jobs _ row
            (mark_cancelled-KeepsOthers env i t "Cancelled by report owner" s.db)
            (λ own. ground arith) at,
    gone,
  )
  Step-IsDeleted {s} j (ends i e) (row, at, gone) =
      inl (row, ap (λ v. get j v.db.jobs) e ∙ at, gone)
  Step-IsDeleted {s} j (deletes report_id i now ctx db' h e) (row, at, gone) =
      let (row', at', gone') = delete_report-keeps report_id i now ctx s.db db' j row h at gone in
      inl (row', ap (λ v. get j v.db.jobs) e ∙ at', gone')
  Step-IsDeleted {s} j (cleans now e) (row, at, gone) =
      elim (cleanup_retention_either env now j s.db) [
        | inl removed ↦ inr (now, e, ap (λ v. get j v.db.jobs) e ∙ removed)
        | inr kept ↦ inl (row, ap (λ v. get j v.db.jobs) e ∙ kept ∙ at, gone)
      ]
  Step-IsDeleted {s} j (restarts now e) (row, at, gone) = inl (
    row,
    ap (λ v. get j v.db.jobs) e
        ∙ (get-map (recover_row env now) (λ r. ground arith) j s.db.jobs ∙ ground arith),
    gone,
  )
