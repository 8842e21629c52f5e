-- ===== src/Jobs/Service/Upkeep.antt =====
-- Deletion, recovery and retention keep the tables sound.
use mathlib.Core.Path.{subst}
use becertain.Prelude.{
  ℕ, ◌≡◌, refl, ◌≢◌, none, some, List, [], ◌∷◌, map, Bool, not, inl, inr, arith, All, All-imp,
  All-filter, All-filter_test, ◌==◌, Bool-cases, filter, sym, ap, ◌∙◌, ltb,
}
use becertain.Prelude.Table.{
  get, put, All-get, get-put, key-get, get-map, get-erase_ne, IsKeyed-put, IsKeyed-map,
  IsKeyed-filter, All-put_ne,
}
use becertain.Http.{ok}
use becertain.Jobs.Rows.{RcaJob, RcaReport, Db, Env, Caller, job_keyed, report_keyed}
use becertain.Jobs.Marks.{
  startup_recovery, cleanup_retention, recover_row, delete_job, delete_jobs, expire_report,
  is_expired, is_stale,
}
use becertain.Jobs.Access.{delete_report, deleted_row}
use becertain.Jobs.Access.Rights.{delete_report_allowed}
use becertain.Jobs.Service.Sound.{HasUniqueKeys, HasUniqueKeys-put, ReportFits, DbIsSound}

module _ {J : Type 0} where
  -- What `delete_report` wrote.
  pub delete_report-eq :
      (report_id : ℕ) (ctx : Caller) (now : ℕ) (db db' : Db J) (job_id : ℕ) (report : RcaReport J)
      (row : RcaJob J)
      → get report_id db.reports ≡ some report
      → get report.job_id db.jobs ≡ some row
      → delete_report report_id ctx now db ≡ ok (job_id, db')
      → db' ≡ record {
        jobs = put (deleted_row row ctx now) db.jobs;
        reports = put (record report { result_payload = none }) db.reports;
      }
  unfolding delete_report
  delete_report-eq report_id ctx now db db' job_id report row found found_row h = ground arith

  deleted-fit :
      (ctx : Caller) (now : ℕ) (db : Db J) (report : RcaReport J) (row : RcaJob J)
      → DbIsSound db
      → get report.report_id db.reports ≡ some report
      → get report.job_id db.jobs ≡ some row
      → All
          (ReportFits (put (deleted_row row ctx now) db.jobs))
          (put (record report { result_payload = none }) db.reports)
  deleted-fit ctx now db report row sound found found_row =
      let row' = deleted_row row ctx now in
      let report' : RcaReport J = record report { result_payload = none } in
      let id = key-get report.job_id row db.jobs found_row in
      let (job, at, same_id, same_tenant, _, _) =
        All-get (ReportFits db.jobs) report.report_id db.reports report sound.fit found in
      let same : job ≡ row = ground arith in
      let row_id : row.report_id ≡ report.report_id = ap (λ r. r.report_id) (sym same) ∙ same_id in
      let row_tenant : row.tenant_id ≡ report.tenant_id =
        ap (λ r. r.tenant_id) (sym same) ∙ same_tenant in
      All-put_ne _ _ report' db.reports sound.report_keys
        (λ other ne (job', at', id', tenant', settled', gone').
          (job', ground (arith, get-put other.job_id row' db.jobs), id', tenant', settled', gone'))
        (
          row',
          ground (arith, get-put report.job_id row' db.jobs),
          row_id,
          row_tenant,
          refl,
          λ e. refl,
        )
        sound.fit

  pub delete_report-DbIsSound :
      (report_id : ℕ) (ctx : Caller) (now : ℕ) (db db' : Db J) (job_id : ℕ)
      → delete_report report_id ctx now db ≡ ok (job_id, db')
      → DbIsSound db
      → DbIsSound db'
  delete_report-DbIsSound report_id ctx now db db' job_id h sound =
      let (report, row, found, found_row, _, _, _) =
        delete_report_allowed report_id ctx now db db' job_id h in
      let row' = deleted_row row ctx now in
      let report' : RcaReport J = record report { result_payload = none } in
      let id = key-get report.job_id row db.jobs found_row in
      let at = ap (λ j. get j db.jobs) id ∙ found_row in
      let rid = key-get report_id report db.reports found in
      subst DbIsSound
        (sym (delete_report-eq report_id ctx now db db' job_id report row found found_row h))
        (record {
          keys = HasUniqueKeys-put row row' db.jobs sound.keys at refl;
          report_keys = IsKeyed-put report' db.reports sound.report_keys;
          fit =
              deleted-fit ctx now db report row sound (ap (λ j. get j db.reports) rid ∙ found)
                found_row;
        })

module _ {J : Type 0} (env : Env J) where
  HasUniqueKeys-recover :
      (now : ℕ) (rows : List (RcaJob J))
      → HasUniqueKeys rows
      → HasUniqueKeys (map (recover_row env now) rows)
  HasUniqueKeys-recover now [] u = tt
  HasUniqueKeys-recover now (r ∷ rs) u = (others rs u.0, HasUniqueKeys-recover now rs u.1)
    where
      others :
          (xs : List (RcaJob J))
          → All (λ x. (x.job_id ≢ r.job_id) × (x.report_id ≢ r.report_id)) xs
          → All
              (λ x.
                (x.job_id ≢ (recover_row env now r).job_id)
                × (x.report_id ≢ (recover_row env now r).report_id))
              (map (recover_row env now) xs)
      others [] h = tt
      others (x ∷ xs) h = (ground arith, others xs h.1)

  pub startup_recovery-DbIsSound :
      (now : ℕ) (db : Db J) → DbIsSound db → DbIsSound (startup_recovery env now db)
  unfolding startup_recovery
  startup_recovery-DbIsSound now db sound = record {
    keys = HasUniqueKeys-recover now db.jobs sound.keys;
    report_keys = sound.report_keys;
    fit =
        All-imp _ _ db.reports
          (λ report (job, at, id, tenant, settled, gone).
            let same : recover_row env now job ≡ job = ground arith in
            (
              job,
              rw (get-map (recover_row env now) (λ r. ground arith) report.job_id db.jobs, at)
                  (ap some same),
              id,
              tenant,
              settled,
              gone,
            ))
          sound.fit;
  }

  HasUniqueKeys-filter :
      (p : RcaJob J → Bool) (rows : List (RcaJob J))
      → HasUniqueKeys rows
      → HasUniqueKeys (filter p rows)
  HasUniqueKeys-filter p [] u = tt
  HasUniqueKeys-filter p (r ∷ rs) u = elim (Bool-cases (p r)) [
    | inl kept ↦ rw kept (All-filter _ p rs u.0, HasUniqueKeys-filter p rs u.1)
    | inr dropped ↦ rw dropped (HasUniqueKeys-filter p rs u.1)
  ]

  delete_job-DbIsSound : (row : RcaJob J) (db : Db J) → DbIsSound db → DbIsSound (delete_job row db)
  delete_job-DbIsSound row db sound = record {
    keys = HasUniqueKeys-filter _ db.jobs sound.keys;
    report_keys = IsKeyed-filter _ db.reports sound.report_keys;
    fit =
        All-imp _ _ (filter (λ report. not (report.job_id == row.job_id)) db.reports)
          (λ report ((job, at, id, tenant, settled, gone), other). (
            job,
            rw (get-erase_ne report.job_id row.job_id db.jobs (ground arith)) at,
            id,
            tenant,
            settled,
            gone,
          ))
          (All-filter_test (ReportFits db.jobs) (λ report. not (report.job_id == row.job_id))
            db.reports sound.fit);
  }

  delete_jobs-DbIsSound :
      (rows : List (RcaJob J)) (db : Db J) → DbIsSound db → DbIsSound (delete_jobs rows db)
  unfolding delete_jobs
  delete_jobs-DbIsSound [] db sound = sound
  delete_jobs-DbIsSound (row ∷ rows) db sound =
      delete_jobs-DbIsSound rows (delete_job row db) (delete_job-DbIsSound row db sound)

  expired-fit :
      (now : ℕ) (rows : List (RcaJob J)) (r : RcaReport J)
      → ReportFits rows r
      → ReportFits rows (expire_report env now r)
  expired-fit now rows r (job, at, id, tenant, settled, gone) =
      elim (Bool-cases (is_expired env now r)) [
        | inl expired ↦ rw expired (job, at, id, tenant, settled, λ e. refl)
        | inr kept ↦ rw kept (job, at, id, tenant, settled, gone)
      ]

  expire-fit :
      (now : ℕ) (rows : List (RcaJob J)) (reports : List (RcaReport J))
      → All (ReportFits rows) reports
      → All (ReportFits rows) (map (expire_report env now) reports)
  expire-fit now rows [] h = tt
  expire-fit now rows (r ∷ rs) h = (expired-fit now rows r h.0, expire-fit now rows rs h.1)

  pub cleanup_retention-DbIsSound :
      (now : ℕ) (db : Db J) → DbIsSound db → DbIsSound (cleanup_retention env now db)
  unfolding cleanup_retention
  cleanup_retention-DbIsSound now db sound = elim (Bool-cases (ltb 0 env.report_retention_days)) [
    | inl some_days ↦ rw some_days (
        delete_jobs-DbIsSound (filter (is_stale env now) db.jobs) _ (record {
          keys = sound.keys;
          report_keys =
              IsKeyed-map (expire_report env now) (λ r. ground arith) db.reports sound.report_keys;
          fit = expire-fit now db.jobs db.reports sound.fit;
        }))
    | inr never ↦ rw never (delete_jobs-DbIsSound (filter (is_stale env now) db.jobs) db sound)
  ]
