-- ===== src/Jobs/Marks/Maintenance.antt =====
-- What the two maintenance transactions do to each row.
use becertain.Prelude.{
  ◌⊎◌, ◌+◌, ◌*◌, ◌<◌, ◌≤◌, ◌∙◌, max, ℕ, ◌≡◌, refl, ◌≢◌, List, [], ◌∷◌, none, some, true, false,
  arith, any, filter, All, Bool-cases, Option-cases, inl, inr, ◌==◌, if◌then◌else◌,
}
use becertain.Prelude.Table.{get, get-map, get-erase_ne, get-erase_self}
use becertain.Jobs.Rows.{
  JobStatus, RcaJob, Db, Env, is_pending, is_finished, job_keyed, report_keyed,
}
use becertain.Jobs.Marks.{
  startup_recovery, recover_row, cleanup_retention, delete_jobs, delete_job, is_stale, day,
}
use becertain.Jobs.Listing.Order.{HasUniqueIds}

module _ {J : Type 0} (env : Env J) where
  -- After a restart no job is queued or running: those that were have failed at that instant, with
  -- the reason; every other row is as it was, and no row is lost.
  pub startup_recovery_lem :
      (now job_id : ℕ) (db : Db J) (row : RcaJob J)
      → get job_id db.jobs ≡ some row
      → (row' : RcaJob J) × (get job_id (startup_recovery env now db).jobs ≡ some row')
        × (is_finished row'.status ≡ true)
        × (is_finished row.status ≡ true → row' ≡ row)
        × (is_pending row.status ≡ true
            → (row'.status ≡ JobStatus.failed)
              × (row'.finished_at ≡ some now)
              × (row'.error ≡ some "Interrupted due to process restart before completion"))
  unfolding startup_recovery
  startup_recovery_lem now job_id db row found = (
    recover_row env now row,
    rw (get-map (recover_row env now) same job_id db.jobs, found),
    ground arith,
    ground arith,
    ground arith,
  )
    where
      same : (r : RcaJob J) → (recover_row env now r).job_id ≡ r.job_id
      same r = ground arith

  get-delete_jobs :
      (j : ℕ) (rows : List (RcaJob J)) (db : Db J)
      → get j (delete_jobs rows db).jobs
        ≡ (if any (λ r. r.job_id == j) rows then none else get j db.jobs)
  unfolding delete_jobs
  get-delete_jobs j [] db = refl
  get-delete_jobs j (r ∷ rows) db = ground (
    arith,
    get-delete_jobs j rows (delete_job r db),
    get-erase_ne j r.job_id db.jobs,
    get-erase_self j db.jobs,
  )

  any_other :
      (now j : ℕ) (rows : List (RcaJob J))
      → All (λ x. x.job_id ≢ j) rows
      → any (λ r. r.job_id == j) (filter (is_stale env now) rows) ≡ false
  any_other now j [] h = refl
  any_other now j (r ∷ rows) h = ground (arith, any_other now j rows h.1)

  any_stale :
      (now j : ℕ) (rows : List (RcaJob J)) (row : RcaJob J)
      → HasUniqueIds rows
      → get j rows ≡ some row
      → any (λ r. r.job_id == j) (filter (is_stale env now) rows) ≡ is_stale env now row
  any_stale now j [] row u found = cc
  any_stale now j (r ∷ rows) row u found = elim (Bool-cases (r.job_id == j)) [
    | inl here ↦
        let same : r ≡ row = ground arith in
        let none_left = any_other now r.job_id rows u.0 in rw (← same) (ground arith)
    | inr later ↦ ground (arith, any_stale now j rows row u.1)
  ]

  pub get-cleanup_retention :
      (now j : ℕ) (db : Db J)
      → HasUniqueIds db.jobs
      → get j (cleanup_retention env now db).jobs ≡ elim (get j db.jobs) [
        | none ↦ none
        | some row ↦ if is_stale env now row then none else some row
      ]
  unfolding cleanup_retention
  get-cleanup_retention now j db u = elim (Option-cases (get j db.jobs)) [
    | inl missing ↦ rw (get-delete_jobs, missing) (ground arith)
    | inr (row, found) ↦ rw (get-delete_jobs, any_stale now j db.jobs row u found, found) refl
  ]

  -- The time to live of a job, of a day at least, is over.
  abbrev pub IsExpired : ℕ → RcaJob J → Type 0
  IsExpired now row = row.created_at + max 1 env.job_ttl_days * day < now

  -- Expired, and the work on the job is over.
  abbrev pub IsRemovable : ℕ → RcaJob J → Type 0
  IsRemovable now row =
      IsExpired now row
      × ((row.status ≡ JobStatus.completed)
          ⊎ (row.status ≡ JobStatus.failed)
          ⊎ (row.status ≡ JobStatus.cancelled)
          ⊎ (row.status ≡ JobStatus.deleted))

  abbrev pub IsRetained : ℕ → RcaJob J → Type 0
  IsRetained now row =
      (now ≤ row.created_at + max 1 env.job_ttl_days * day)
      ⊎ (row.status ≡ JobStatus.queued)
      ⊎ (row.status ≡ JobStatus.running)

  IsRemovable-is_stale :
      (now : ℕ) (row : RcaJob J) → IsRemovable now row → is_stale env now row ≡ true
  IsRemovable-is_stale now row (old, over) = ground arith

  IsRetained-is_stale :
      (now : ℕ) (row : RcaJob J) → IsRetained now row → is_stale env now row ≡ false
  IsRetained-is_stale now row h = ground arith

  -- Where the job ids are unique, the cleanup removes a job that was created longer ago than the time
  -- to live and is completed, failed, cancelled or deleted; a job that is queued or running, or not so
  -- old, it leaves as it is.
  pub cleanup_retention_jobs :
      (now j : ℕ) (db : Db J) (row : RcaJob J)
      → HasUniqueIds db.jobs
      → get j db.jobs ≡ some row
      → let after = get j (cleanup_retention env now db).jobs in
        (IsRemovable now row → after ≡ none) × (IsRetained now row → after ≡ some row)
  cleanup_retention_jobs now j db row u found =
      let eq = get-cleanup_retention now j db u in
      (
        λ h. eq ∙ rw (found, IsRemovable-is_stale now row h) refl,
        λ h. eq ∙ rw (found, IsRetained-is_stale now row h) refl,
      )

  -- A row that the cleanup does not remove is left as it is.
  pub cleanup_retention_either :
      (now j : ℕ) (db : Db J)
      → (get j (cleanup_retention env now db).jobs ≡ none)
        ⊎ (get j (cleanup_retention env now db).jobs ≡ get j db.jobs)
  unfolding cleanup_retention
  cleanup_retention_either now j db =
      elim (Bool-cases (any (λ r. r.job_id == j) (filter (is_stale env now) db.jobs))) [
        | inl removed ↦ inl (rw (get-delete_jobs, removed) refl)
        | inr kept ↦ inr (rw (get-delete_jobs, kept) refl)
      ]
