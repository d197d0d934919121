-- ===== src/Jobs/Ending.antt =====
-- The transactions that end a running job (complete_job, fail_job and cancel_running_job of
-- jobs/service.py): what they return and leave.
use wirescope.Prelude.{
  ℕ, ap, subst, String, ◌≡◌, refl, ◌∙◌, true, false, Option, none, some, List, [], ◌∷◌, Bool-cases,
  inl, inr, if◌then◌else◌, str_eq, keep,
}
use wirescope.Result.{Result, ok}
use wirescope.Json.{Dict}
use wirescope.Jobs.Models.{JobStatus, JobError}
use wirescope.Jobs.Steps.{release_lock}
use wirescope.Jobs.Execution.{
  finish, complete_job, fail_job, cancel_running_job, non_empty, locked_by,
}
use wirescope.Jobs.Records.{JobRecord}
use wirescope.Jobs.Coherence.{IsCoherent, IsCoherentBut, refresh_audit-tables}
use wirescope.Jobs.Coherence.Moves.{merge_summary-IsCoherentBut}
use wirescope.Jobs.Coherence.Finish.{
  finish-inv, Finishing, Finishing-IsCoherent, complete_job-Finishing, fail_job-Finishing,
  cancel_running_job-Finishing, Transition-IsCoherentBut,
}
use wirescope.Jobs.Coherence.Claims.{Transition-found}
use wirescope.Jobs.Liveness.{complete_job-Returns, fail_job-Returns, cancel_running_job-Returns}
use wirescope.Persistence.{
  AuditModel, JobModel, ResourceLockModel, Db, find_audit, find_job, job_key,
}
use wirescope.Table

locked_by-keep :
    (k : String) (ls : List ResourceLockModel)
    → locked_by k (keep (λ l. if str_eq l.job_id k then false else true) ls) ≡ false
locked_by-keep k [] = refl
locked_by-keep k (l ∷ ls) = elim (Bool-cases (str_eq l.job_id k)) [
  | inl e ↦ rw e (locked_by-keep k ls)
  | inr e ↦ rw (e, e) (locked_by-keep k ls)
]

-- A job that has ended the way `desired` says: the row, the lock, and the audit.
pub record Ended (k : String) (desired : JobStatus) (db : Db) : Type 0 where
  pub job : JobModel
  pub found : find_job k db ≡ some job
  pub status : job.status ≡ desired
  pub unlocked : locked_by k db.locks ≡ false
  pub coherent : IsCoherent db

finish-tables :
    (now : ℕ) (job : JobModel) (summary : Option Dict) (db : Db) (r : JobRecord) (db' : Db)
    → IsCoherentBut job.audit_id db
    → finish now job summary db ≡ ok (r, db')
    → (db'.jobs ≡ db.jobs) × (db'.locks ≡ (release_lock job.id db).locks)
unfolding release_lock
finish-tables now job summary db r db' h f =
    let (m, hm, hd) = finish-inv now job summary db r db' f in
    let (others', jobs, locks) =
      merge_summary-IsCoherentBut job.audit_id job.audit_id summary (release_lock job.id db) m hm
        h in
    let (jobs', locks', workers, events) = refresh_audit-tables now job.audit_id m db' hd in
    (jobs' ∙ jobs, locks' ∙ locks)

-- Such a transaction ends its job.
Finishing-Ended :
    (now : ℕ) (k : String) (desired : JobStatus) (summary : Option Dict) (db : Db) (r : JobRecord)
    (db' : Db)
    → IsCoherent db
    → Finishing now k desired summary db r db'
    → Ended k desired db'
unfolding release_lock
Finishing-Ended now k desired summary db r db' h f =
    let t = f.transition in
    let (others, some_job) =
      Transition-IsCoherentBut k f.job f.old desired f.progress db f.moved_job f.moved_db t h in
    let (jobs, locks) = finish-tables now f.moved_job summary f.moved_db r db' others f.finished in
    let key : f.moved_job.id ≡ k = t.row.id ∙ Table.key-find job_key k db.jobs f.old t.row.found in
    record {
      job = f.moved_job;
      found =
          ap (Table.find job_key k) jobs
          ∙ subst (λ i. find_job i f.moved_db ≡ some f.moved_job) key
              (Transition-found k f.job f.old desired f.progress db f.moved_job f.moved_db t);
      status = t.status;
      unlocked =
          ap (locked_by k) locks
          ∙ subst (λ i. locked_by i (release_lock f.moved_job.id f.moved_db).locks ≡ false) key
              (locked_by-keep f.moved_job.id f.moved_db.locks);
      coherent = Finishing-IsCoherent now k db r db' desired summary f h;
    }

-- The call returns, and what it leaves.
abbrev pub Ends : String → JobStatus → Result (JobRecord × Db) → Type 0
Ends k desired result = (r : JobRecord) × (db' : Db) × (result ≡ ok (r, db')) × Ended k desired db'

module _ (now : ℕ) (k : String) (db : Db) (job : JobModel) (a : AuditModel) (h : IsCoherent db)
    (found : find_job k db ≡ some job) (runs : job.status ≡ JobStatus.running)
    (owned : find_audit job.audit_id db ≡ some a) where
  -- In a database whose audits agree with their jobs, completing a job that runs and whose audit
  -- exists returns; the job is then completed and holds no lock, and audits and jobs agree.
  pub complete_job-Ends :
      (result_reference : Option String) (summary : Option Dict)
      → Ends k JobStatus.completed (complete_job now k result_reference summary db)
  complete_job-Ends ref summary =
      let ((r, db'), e) = complete_job-Returns now k db job a h found runs owned ref summary in
      (
        r,
        db',
        e,
        Finishing-Ended now k _ summary db r db' h
            (complete_job-Finishing now k db r db' ref summary e),
      )

  -- The same for failing it.
  pub fail_job-Ends : (error : JobError) → Ends k JobStatus.failed (fail_job now k error db)
  fail_job-Ends error =
      let ((r, db'), e) = fail_job-Returns now k db job a h found runs owned error in
      (
        r,
        db',
        e,
        Finishing-Ended now k _ none db r db' h (fail_job-Finishing now k db r db' error e),
      )

  -- In a database whose audits agree with their jobs, cancelling a job that runs and whose audit
  -- exists returns; the job is then cancelled and holds no lock, and audits and jobs agree.
  pub cancel_running_job-Ends :
      (message : String) (result_reference : Option String) (summary : Option Dict)
      → Ends k JobStatus.cancelled (cancel_running_job now k message result_reference summary db)
  cancel_running_job-Ends message ref summary =
      let ((r, db'), e) =
        cancel_running_job-Returns now k db job a h found runs owned message ref summary in
      (
        r,
        db',
        e,
        Finishing-Ended now k _ (non_empty summary) db r db' h
            (cancel_running_job-Finishing now k db r db' message ref summary e),
      )
