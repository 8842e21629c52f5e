-- ===== src/Jobs/Service/Reached.antt =====
-- Every reachable state is sound: its tables, and for each task the state of its job.
use mathlib.Core.Path.{subst}
use becertain.Prelude.{◌≡◌, refl, some, arith, sym}
use becertain.Prelude.Table.{get}
use becertain.Jobs.Rows.{Env, job_keyed, report_keyed}
use becertain.Jobs.Marks.{mark_running, running_row}
use becertain.Jobs.Service.{
  Stage, task_keyed, Service, Step, Reach, creates, begins, completes, fails, cancels, ends,
  deletes, cleans, restarts, start, next,
}
use becertain.Jobs.Service.Sessions.{
  create-DbIsSound, mark_running-DbIsSound, mark_failed-DbIsSound, mark_cancelled-DbIsSound,
  mark_completed-DbIsSound,
}
use becertain.Jobs.Service.Upkeep.{
  delete_report-DbIsSound, startup_recovery-DbIsSound, cleanup_retention-DbIsSound,
}
use becertain.Jobs.Service.Tasks.{
  IsSound, put-tasks_fit, erase-tasks_fit, mark_running-KeepsOthers, get-mark_running,
  mark_completed-KeepsOthers, mark_failed-KeepsOthers, mark_cancelled-KeepsOthers,
  creates-tasks_fit, cleans-tasks_fit, deletes-tasks_fit,
}

module _ {J : Type 0} (env : Env J) where
  pub Step-IsSound : {s u : Service J} → Step env s u → IsSound s → IsSound u
  Step-IsSound {s} (creates ctx payload i report_id now fresh e) sound =
      subst IsSound (sym e) (record {
        tables = create-DbIsSound env ctx payload i report_id now s.db fresh.0 sound.tables;
        tasks_fit = creates-tasks_fit env s ctx payload i report_id now fresh sound;
      })
  Step-IsSound {s} (begins i at task_at e) sound =
      let (row, found, queued) = sound.tasks_fit i Stage.waiting task_at in
      let marked : get i (mark_running i at s.db).jobs ≡ some (running_row row at) =
        get-mark_running i at s.db row found queued in
      subst IsSound (sym e) (record {
        tables = mark_running-DbIsSound env i at s.db row found queued sound.tables;
        tasks_fit =
            put-tasks_fit s i Stage.waiting Stage.analysing _ sound task_at
              (mark_running-KeepsOthers i at s.db) (running_row row at, marked, refl);
      })
  Step-IsSound {s} (completes i at result task_at e) sound =
      let (row, found, running) = sound.tasks_fit i Stage.analysing task_at in
      subst IsSound (sym e) (record {
        tables = mark_completed-DbIsSound env i at result s.db row found running sound.tables;
        tasks_fit =
            put-tasks_fit s i Stage.analysing Stage.storing _ sound task_at
              (mark_completed-KeepsOthers env i at result s.db) tt;
      })
  Step-IsSound {s} (fails i at message task_at e) sound =
      let (row, found, running) = sound.tasks_fit i Stage.analysing task_at in
      subst IsSound (sym e) (record {
        tables = mark_failed-DbIsSound env i at message s.db row found running sound.tables;
        tasks_fit = erase-tasks_fit s i _ sound (mark_failed-KeepsOthers env i at message s.db);
      })
  Step-IsSound {s} (cancels i at stage task_at _ e) sound = subst IsSound (sym e) (record {
    tables = mark_cancelled-DbIsSound env i at "Cancelled by report owner" s.db sound.tables;
    tasks_fit =
        erase-tasks_fit s i _ sound
          (mark_cancelled-KeepsOthers env i at "Cancelled by report owner" s.db);
  })
  Step-IsSound {s} (ends i e) sound = subst IsSound (sym e) (record {
    tables = sound.tables;
    tasks_fit = erase-tasks_fit s i s.db.jobs sound (λ j ne. refl);
  })
  Step-IsSound {s} (deletes report_id i now ctx db' h e) sound = subst IsSound (sym e) (record {
    tables = delete_report-DbIsSound report_id ctx now s.db db' i h sound.tables;
    tasks_fit = deletes-tasks_fit env s report_id i now ctx db' h sound;
  })
  Step-IsSound {s} (cleans now e) sound = subst IsSound (sym e) (record {
    tables = cleanup_retention-DbIsSound env now s.db sound.tables;
    tasks_fit = cleans-tasks_fit env s now sound;
  })
  Step-IsSound {s} (restarts now e) sound = subst IsSound (sym e) (record {
    tables = startup_recovery-DbIsSound env now s.db sound.tables;
    tasks_fit = λ j stage h. absurd (ground arith);
  })

  -- In every reachable state: job ids and report ids are unique; a report belongs to a job of its
  -- tenant that is completed, cancelled or deleted, and has no payload in the last case; a task
  -- that waits has a queued job, and one that analyses a running job.
  pub Reach-IsSound : {s : Service J} → Reach env s → IsSound s
  Reach-IsSound start = record {
    tables = record { keys = tt; report_keys = tt; fit = tt };
    tasks_fit = λ j stage h. absurd (ground arith);
  }
  Reach-IsSound (next r step) = Step-IsSound step (Reach-IsSound r)
