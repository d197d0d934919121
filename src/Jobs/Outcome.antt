-- ===== src/Jobs/Outcome.antt =====
-- How the worker (jobs/worker.py) handles the outcome of a handler.
use wirescope.Prelude.{
  ℕ, ap, String, ◌≡◌, refl, ◌||◌, Bool, true, Option, none, some, inl, inr, Bool-cases,
}
use wirescope.Result.{Result, ok}
use wirescope.Json.{Dict}
use wirescope.Jobs.Models.{JobStatus, JobError, terminal}
use wirescope.Jobs.Steps.{require_job}
use wirescope.Jobs.Service.{get_job}
use wirescope.Jobs.Records.{JobRecord, job_record, attached}
use wirescope.Jobs.Execution.{cancel_running_job}
use wirescope.Jobs.Coherence.{IsCoherent}
use wirescope.Jobs.Ending.{Ended, Ends, complete_job-Ends, fail_job-Ends, cancel_running_job-Ends}
use wirescope.Jobs.Worker.{
  HandlerOutcome, returned, raised_cancelled, raised_execution, raised_other, drop_record,
  cancel_or_fail, conclude, settle, unhandled_exception,
}
use wirescope.Persistence.{AuditModel, JobModel, Db, find_audit, find_job}

-- The job has ended in a terminal status that the worker may give it.
abbrev pub Settles : String → Result Db → Type 0
Settles k result =
    (db' : Db) × (s : JobStatus) × (result ≡ ok db') × (terminal s ≡ true) × Ended k s db'

Ends-Settles :
    (k : String) (s : JobStatus) (result : Result (JobRecord × Db))
    → terminal s ≡ true
    → Ends k s result
    → Settles k (drop_record result)
Ends-Settles k s result t (r, db', e, ended) = (db', s, ap drop_record e, t, ended)

completed_ends : terminal JobStatus.completed ≡ true
unfolding terminal
completed_ends = refl

failed_ends : terminal JobStatus.failed ≡ true
unfolding terminal
failed_ends = refl

cancelled_ends : terminal JobStatus.cancelled ≡ true
unfolding terminal
cancelled_ends = refl

module _ (now : ℕ) (k : String) (token : Bool) (db : Db) (job : JobModel) (a : AuditModel)
    (h : IsCoherent db) (found : find_job k db ≡ some job) (runs : job.status ≡ JobStatus.running)
    (owned : find_audit job.audit_id db ≡ some a) where
  got_job : get_job k db ≡ ok (job_record (attached db.events) job)
  unfolding get_job require_job
  got_job = rw found refl

  cancel-Settles :
      (message : String) (ref : Option String) (summary : Option Dict)
      → Settles k (drop_record (cancel_running_job now k message ref summary db))
  cancel-Settles message ref summary =
      Ends-Settles k JobStatus.cancelled _ cancelled_ends
        (cancel_running_job-Ends now k db job a h found runs owned message ref summary)

  cancel_or_fail-Settles : (error : JobError) → Settles k (cancel_or_fail now k token error db)
  unfolding cancel_or_fail
  cancel_or_fail-Settles error =
      rw got_job
        (elim (Bool-cases (token || (job_record (attached db.events) job).cancel_requested)) [
          | inl e ↦ rw e (cancel-Settles "Job cancelled" none none)
          | inr e ↦ rw e (
              Ends-Settles k JobStatus.failed _ failed_ends
                (fail_job-Ends now k db job a h found runs owned error))
        ])

  conclude-Settles :
      (ref : Option String) (summary : Dict) → Settles k (conclude now k token ref summary db)
  unfolding conclude
  conclude-Settles ref summary =
      rw got_job
        (elim (Bool-cases (token || (job_record (attached db.events) job).cancel_requested)) [
          | inl e ↦ rw e (cancel-Settles "Job cancelled" ref (some summary))
          | inr e ↦ rw e (
              Ends-Settles k JobStatus.completed _ completed_ends
                (complete_job-Ends now k db job a h found runs owned ref (some summary)))
        ])

  -- In a database whose audits agree with their jobs, where the job runs and its audit exists when
  -- its handler ends, the worker's handling of the outcome succeeds whatever the outcome is and
  -- whether or not a cancellation was asked for: the job is then in a terminal status and holds no
  -- lock, and audits and jobs agree.
  pub settle-Settles : (outcome : HandlerOutcome) → Settles k (settle now k token outcome db)
  unfolding settle
  settle-Settles (returned ref summary) =
      let (db', s, e, t, ended) = conclude-Settles ref summary in (db', s, rw e refl, t, ended)
  settle-Settles (raised_cancelled message ref summary) = cancel-Settles message ref (some summary)
  settle-Settles (raised_execution error) = cancel_or_fail-Settles error
  settle-Settles (raised_other name) = cancel_or_fail-Settles (unhandled_exception name)
