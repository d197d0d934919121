-- ===== src/Jobs/Liveness.antt =====
-- Whether the transactions of jobs/service.py that end a running job can be refused: the transition and
-- the refresh of the audit.
use wirescope.Prelude.{
  ℕ, subst, String, ◌≡◌, refl, inl, inr, true, ◌||◌, Option, none, some, List, [], ◌∷◌, ◌++◌, arith,
  any,
}
use Prim.Native.String.{◌++◌ as append}
use wirescope.Result.{Result, ok, ◌>>=◌}
use wirescope.Json.{Dict, update}
use wirescope.Jobs.Models.{AuditStatus, JobStatus, JobError, status_value}
use wirescope.Jobs.State.{audit_transitions, job_transitions, require_job_transition}
use wirescope.Jobs.Statuses.{statuses-Split}
use wirescope.Jobs.Steps.{
  statuses, desired_status, audit_status_eq, moved, transition_job, add_event, release_lock,
  require_audit, require_job, refresh_audit,
}
use wirescope.Jobs.Execution.{
  merge_summary, finish, complete_job, fail_job, cancel_running_job, cancelled_error, or_kept,
  non_empty,
}
use wirescope.Jobs.Records.{job_record, detached}
use wirescope.Jobs.Coherence.{IsCoherent, agrees, is_unqueued, refresh_audit-total}
use wirescope.Jobs.Coherence.Claim.{agrees-active, any_active-middle}
use wirescope.Jobs.Coherence.Moves.{IsRowOf, find-row, moved-keeps, add_event-tables}
use wirescope.Persistence.{
  AuditModel, JobModel, Db, find_audit, find_job, put_audit, put_job, audit_key,
}
use wirescope.Table

-- A call that returns.
abbrev pub Returns {ℓ} : {A : Type ℓ} → Result A → Type ℓ
Returns {A} r = (a : A) × (r ≡ ok a)

-- From running, an audit may go wherever its jobs say.
pub running_to_desired :
    (ss : List JobStatus)
    → (audit_status_eq AuditStatus.running (desired_status ss)
        || audit_transitions AuditStatus.running (desired_status ss))
      ≡ true
unfolding desired_status audit_transitions
running_to_desired ss = ground arith

module _ (now : ℕ) (job : JobModel) (db : Db) (a : AuditModel)
    (found : find_audit job.audit_id db ≡ some a) (runs : a.status ≡ AuditStatus.running) where
  refresh_audit-Returns : Returns (refresh_audit now job.audit_id db)
  refresh_audit-Returns =
      refresh_audit-total now job.audit_id db a found
        (rw runs (running_to_desired (statuses job.audit_id db.jobs)))

finish-Returns :
    (now : ℕ) (job : JobModel) (summary : Option Dict) (db : Db) (a : AuditModel)
    → find_audit job.audit_id db ≡ some a
    → a.status ≡ AuditStatus.running
    → Returns (finish now job summary db)
unfolding finish merge_summary release_lock require_audit
finish-Returns now job none db a found runs =
    let (d, e) = refresh_audit-Returns now job (release_lock job.id db) a found runs in
    ((job_record detached job, d), rw e)
finish-Returns now job (some s) db a found runs =
    let b : AuditModel = record a { summary = update a.summary s } in
    let merged : Db = put_audit b (release_lock job.id db) in
    let (d, e) =
      refresh_audit-Returns now job merged b
        (Table.find-replace_self audit_key b a job.audit_id db.audits found
          (Table.key-find audit_key job.audit_id db.audits a found))
        runs in
    ((job_record detached job, d), rw found (rw e))

any_unqueued-middle :
    (xs ys : List JobStatus) (s : JobStatus)
    → is_unqueued s ≡ true
    → any is_unqueued (xs ++ s ∷ ys) ≡ true
any_unqueued-middle [] ys s h = ground arith
any_unqueued-middle (x ∷ xs) ys s h = ground (arith, any_unqueued-middle xs ys s h)

agrees-running :
    (t : AuditStatus) (xs ys : List JobStatus)
    → agrees t (xs ++ JobStatus.running ∷ ys) ≡ true
    → t ≡ AuditStatus.running
agrees-running t xs ys g =
    elim (agrees-active t (xs ++ JobStatus.running ∷ ys)
      (any_active-middle xs ys JobStatus.running refl) g) [
        | inl e ↦ ground (arith, any_unqueued-middle xs ys JobStatus.running refl)
        | inr e ↦ e
      ]

abbrev row_itself :
    (k : String) (job : JobModel) (db : Db) → find_job k db ≡ some job → IsRowOf k job job db
row_itself k job db found = record { found = found; id = refl; audit_id = refl }

-- The audit of a job that runs is running.
pub running_audit :
    (k : String) (db : Db) (job : JobModel) (a : AuditModel)
    → IsCoherent db
    → find_job k db ≡ some job
    → job.status ≡ JobStatus.running
    → find_audit job.audit_id db ≡ some a
    → a.status ≡ AuditStatus.running
running_audit k db job a h found runs fa =
    let s =
      statuses-Split job.audit_id job job refl db.jobs
        (find-row k job job db (row_itself k job db found)) refl in
    agrees-running a.status s.before s.after (
      subst (λ j. agrees a.status (s.before ++ j ∷ s.after) ≡ true) runs
        (rw (← s.was) (h job.audit_id a fa)))

-- A move that is allowed succeeds.
pub transition_job-ok :
    (now : ℕ) (job : JobModel) (desired : JobStatus) (stage : String) (progress : ℕ)
    (message : String) (error : Option JobError) (db : Db)
    → job_transitions job.status desired ≡ true
    → let j = moved now job desired stage progress message error in
      transition_job now job desired stage progress message error db
      ≡ ok (j, add_event now j (append "job_" (status_value desired)) message (put_job j db))
unfolding transition_job require_job_transition
transition_job-ok now job desired stage progress message error db h = rw h

job_may_complete : job_transitions JobStatus.running JobStatus.completed ≡ true
unfolding job_transitions
job_may_complete = refl

job_may_fail : job_transitions JobStatus.running JobStatus.failed ≡ true
unfolding job_transitions
job_may_fail = refl

job_may_cancel : job_transitions JobStatus.running JobStatus.cancelled ≡ true
unfolding job_transitions
job_may_cancel = refl

module _ (now : ℕ) (k : String) (db : Db) (job : JobModel) (a : AuditModel) (h : IsCoherent db)
    (found : find_job k db ≡ some job) (runs : job.status ≡ JobStatus.running)
    (owned : find_audit job.audit_id db ≡ some a) where
  -- What a move and the end of its transaction return.
  ended-Returns :
      (row : JobModel) (desired : JobStatus) (stage : String) (progress : ℕ) (message : String)
      (error : Option JobError) (summary : Option Dict)
      → row.status ≡ job.status
      → row.audit_id ≡ job.audit_id
      → job_transitions JobStatus.running desired ≡ true
      → Returns (do
        (job', moved_db) ← transition_job now row desired stage progress message error db
        finish now job' summary moved_db)
  ended-Returns row desired stage progress message error summary s o allowed =
      let j = moved now row desired stage progress message error in
      let after = add_event now j (append "job_" (status_value desired)) message (put_job j db) in
      let (id, audit_id, status, progress_is, key, group) =
        moved-keeps now row desired stage progress message error in
      let (jobs, audits, locks, workers) =
        add_event-tables now j (append "job_" (status_value desired)) message (put_job j db) in
      let there : find_audit j.audit_id after ≡ some a = rw (audits, audit_id, o) owned in
      let (r, e) =
        finish-Returns now j summary after a there (running_audit k db job a h found runs owned) in
      (
        r,
        rw
            (transition_job-ok now row desired stage progress message error db
              (rw (s, runs) allowed))
            e,
      )

  pub complete_job-Returns :
      (result_reference : Option String) (summary : Option Dict)
      → Returns (complete_job now k result_reference summary db)
  unfolding complete_job require_job
  complete_job-Returns ref summary = rw found (
      ended-Returns (record job { result_reference = ref }) JobStatus.completed "completed" 100
        "Job completed" none summary refl refl job_may_complete)

  pub fail_job-Returns : (error : JobError) → Returns (fail_job now k error db)
  unfolding fail_job require_job
  fail_job-Returns error = rw found (
      ended-Returns job JobStatus.failed "failed" job.progress error.message (some error) none refl
        refl job_may_fail)

  pub cancel_running_job-Returns :
      (message : String) (result_reference : Option String) (summary : Option Dict)
      → Returns (cancel_running_job now k message result_reference summary db)
  unfolding cancel_running_job require_job
  cancel_running_job-Returns message ref summary = rw found (
      ended-Returns (record job { result_reference = or_kept ref job.result_reference })
        JobStatus.cancelled "cancelled" job.progress message (some (cancelled_error message))
        (non_empty summary) refl refl job_may_cancel)
