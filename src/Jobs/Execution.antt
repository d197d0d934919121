-- ===== src/Jobs/Execution.antt =====
-- The methods of JobService (jobs/service.py) that move a job: cancel, claim, progress, and the three
-- ways to finish.
use Prim.Native.Nat.{max}
use Prim.Native.String.{◌++◌ as append}
use wirescope.Prelude.{
  ℕ, ◌+◌, String, Bool, true, false, ◌||◌, Option, none, some, List, [], ◌∷◌, ◌++◌, str_eq, leb,
  truthy, is_some, keep, if◌then◌else◌,
}
use wirescope.Prelude.Int.{ltb_ℤ}
use wirescope.Prelude.Sort.{sort_by}
use wirescope.Json.{Dict, update}
use wirescope.Result.{
  Result, ok, err, guard, invalid_job_transition, value_error, integrity_error, ◌>>=◌, ◌>>◌,
}
use wirescope.Jobs.Models.{AuditStatus, JobStatus, JobError, JobProgress, ErrorCategory, terminal}
use wirescope.Jobs.State.{require_audit_transition}
use wirescope.Jobs.Records.{JobRecord, job_record, attached, detached}
use wirescope.Jobs.Steps.{
  require_audit, require_job, add_event, transition_job, refresh_audit, release_lock, or_now,
  resource_available,
}
use wirescope.Persistence.{
  AuditModel, JobModel, ResourceLockModel, Db, find_lock, put_audit, put_job,
}

abbrev pub cancelled_before_start : JobError
cancelled_before_start = record {
  code = "cancelled_before_start";
  category = ErrorCategory.cancelled;
  message = "Job was cancelled before execution";
  component = "job_service";
  retryable = false;
  details = [];
}

-- The three arms of `request_cancel`, by the status of the job.
unfoldable pub cancel_arm : JobStatus → ℕ → JobModel → Db → Result (JobRecord × Db)
unfolding terminal
cancel_arm JobStatus.queued now job db = do
  (job', moved) ←
      transition_job now job JobStatus.cancelled "cancelled" job.progress "Queued job cancelled"
        (some cancelled_before_start) db
  db' ← refresh_audit now job'.audit_id moved
  ok (job_record detached job', db')
cancel_arm JobStatus.running now job db =
    if job.cancel_requested
    then ok (job_record detached job, db)
    else let job' = record job { cancel_requested = true } in
      ok (
        job_record detached job',
        add_event now job' "cancellation_requested" "Cancellation requested" (put_job job' db),
      )
cancel_arm _ now job db = ok (job_record (attached db.events) job, db)

unfoldable pub request_cancel : ℕ → String → Db → Result (JobRecord × Db)
unfolding cancel_arm
request_cancel now job_id db = do job ← require_job db job_id; cancel_arm job.status now job db

-- `ORDER BY priority DESC, created_at`
unfoldable pub claims_before : JobModel → JobModel → Bool
claims_before a b =
    if ltb_ℤ b.priority a.priority
    then true
    else if ltb_ℤ a.priority b.priority
    then false
    else leb a.created_at b.created_at

abbrev pub is_queued : JobModel → Bool
is_queued j = elim j.status [ JobStatus.queued ↦ true | _ ↦ false ]

unfoldable pub candidates : Db → List JobModel
unfolding claims_before
candidates db = sort_by claims_before (keep is_queued db.jobs)

-- A job that has to wait says so once.
unfoldable pub mark_waiting : ℕ → JobModel → Db → Db
mark_waiting now job db =
    if str_eq job.stage "resource_wait"
    then db
    else let job' = record job {
      stage = "resource_wait";
      message = some "Waiting for exclusive resource";
    } in
      add_event now job' "resource_wait" "Waiting for exclusive resource" (put_job job' db)

-- `job.resource_key or f"job:{job.id}"`
abbrev pub or_job_key : Option String → String → String
or_job_key none id = append "job:" id
or_job_key (some k) id = if str_eq k "" then append "job:" id else k

-- The lock of a claimed job.
unfoldable pub job_lock : ℕ → String → JobModel → ResourceLockModel
job_lock now worker_id job = record {
  resource_key = or_job_key job.resource_key job.id;
  resource_group = job.resource_group;
  job_id = job.id;
  worker_id = worker_id;
  acquired_at = now;
}

abbrev pub locked_by : String → List ResourceLockModel → Bool
locked_by job_id [] = false
locked_by job_id (l ∷ ls) = str_eq l.job_id job_id || locked_by job_id ls

-- `session.add(lock)`: the key is the primary key, and `job_id` is unique.
unfoldable pub insert_lock : ResourceLockModel → Db → Result Db
insert_lock l db =
    if is_some (find_lock l.resource_key db)
    then err (integrity_error "resource_locks.resource_key")
    else if locked_by l.job_id db.locks
    then err (integrity_error "resource_locks.job_id")
    else ok (record db { locks = db.locks ++ l ∷ [] })

-- The audit of a claimed job runs.
unfoldable pub start_audit : ℕ → AuditModel → Db → Result Db
start_audit now audit db = elim audit.status [
  | AuditStatus.created ↦ started
  | AuditStatus.completed ↦ started
  | _ ↦ ok db
]
  where
    started : Result Db
    started = do
      require_audit_transition audit.status AuditStatus.running
      ok (
          put_audit
            (record audit {
              status = AuditStatus.running;
              started_at = some (or_now audit.started_at now);
              finished_at = none;
            })
            db)

-- The lock of a claimed job, if it names a resource.
unfoldable pub lock_resource : ℕ → String → JobModel → Db → Result Db
unfolding job_lock insert_lock
lock_resource now worker_id job db =
    if truthy job.resource_key || truthy job.resource_group
    then insert_lock (job_lock now worker_id job) db
    else ok db

-- After the claimed row is written: its lock, and its audit.
unfoldable pub enter : ℕ → String → JobModel → Db → Result (JobModel × Db)
enter now worker_id claimed db = do
  locked ← lock_resource now worker_id claimed db
  audit ← require_audit locked claimed.audit_id
  started ← start_audit now audit locked
  ok (claimed, started)

-- What `claim_next` does with the candidate that it takes.
unfoldable pub claim : ℕ → String → JobModel → Db → Result (JobModel × Db)
claim now worker_id job db = do
  (moved, db') ←
      transition_job now job JobStatus.running "starting" (max 1 job.progress) "Worker claimed job"
        none db
  let claimed = record moved { worker_id = some worker_id; attempt = moved.attempt + 1 }
  enter now worker_id claimed (put_job claimed db')

-- The loop of `claim_next` over its candidates.
unfoldable pub claim_from : ℕ → String → List JobModel → Db → Result (Option JobModel × Db)
claim_from now worker_id [] db = ok (none, db)
claim_from now worker_id (job ∷ rest) db = elim (resource_available db job) [
  | true ↦ do (claimed, db') ← claim now worker_id job db; ok (some claimed, db')
  | false ↦ claim_from now worker_id rest (mark_waiting now job db)
]

abbrev claimed_record : Db → Option JobModel → Option JobRecord
claimed_record db none = none
claimed_record db (some job) = some (job_record (attached db.events) job)

unfoldable pub claim_next : ℕ → String → Db → Result (Option JobRecord × Db)
claim_next now worker_id db = do
  (claimed, db') ← claim_from now worker_id (candidates db) db
  ok (claimed_record db' claimed, db')

abbrev pub is_running : JobStatus → Bool
is_running JobStatus.running = true
is_running _ = false

unfoldable pub update_progress : ℕ → String → JobProgress → Db → Result (JobRecord × Db)
update_progress now job_id progress db = do
  job ← require_job db job_id
  guard (is_running job.status) (invalid_job_transition job.status JobStatus.running)
  guard (leb job.progress progress.percentage) (value_error "Job progress cannot move backwards")
  let job' = record job {
    progress = progress.percentage;
    stage = progress.stage;
    message = some progress.message;
  }
  ok (job_record detached job', add_event now job' "progress" progress.message (put_job job' db))

-- `merged = dict(audit.summary or {}); merged.update(summary)`
unfoldable pub merge_summary : String → Option Dict → Db → Result Db
unfolding update
merge_summary audit_id none db = ok db
merge_summary audit_id (some summary) db = do
  audit ← require_audit db audit_id
  ok (put_audit (record audit { summary = update audit.summary summary }) db)

-- The end of every transaction that finishes a running job.
unfoldable pub finish : ℕ → JobModel → Option Dict → Db → Result (JobRecord × Db)
finish now job summary db = do
  merged ← merge_summary job.audit_id summary (release_lock job.id db)
  db' ← refresh_audit now job.audit_id merged
  ok (job_record detached job, db')

unfoldable pub complete_job :
    ℕ → String → Option String → Option Dict → Db → Result (JobRecord × Db)
complete_job now job_id result_reference summary db = do
  found ← require_job db job_id
  let job = record found { result_reference = result_reference }
  (job', moved) ← transition_job now job JobStatus.completed "completed" 100 "Job completed" none db
  finish now job' summary moved

unfoldable pub fail_job : ℕ → String → JobError → Db → Result (JobRecord × Db)
fail_job now job_id error db = do
  job ← require_job db job_id
  (job', moved) ←
      transition_job now job JobStatus.failed "failed" job.progress error.message (some error) db
  finish now job' none moved

unfoldable pub cancelled_error : String → JobError
cancelled_error message = record {
  code = "cancelled";
  category = ErrorCategory.cancelled;
  message = message;
  component = "job_worker";
  retryable = false;
  details = [];
}

-- `if result_reference:` and `if summary:` pass over an empty text and an empty dictionary.
abbrev pub or_kept : Option String → Option String → Option String
or_kept none old = old
or_kept (some r) old = if str_eq r "" then old else some r

abbrev pub non_empty : Option Dict → Option Dict
non_empty (some []) = none
non_empty other = other

unfoldable pub cancel_running_job :
    ℕ → String → String → Option String → Option Dict → Db → Result (JobRecord × Db)
unfolding cancelled_error
cancel_running_job now job_id message result_reference summary db = do
  found ← require_job db job_id
  let job = record found { result_reference = or_kept result_reference found.result_reference }
  (job', moved) ←
      transition_job now job JobStatus.cancelled "cancelled" job.progress message
        (some (cancelled_error message)) db
  finish now job' (non_empty summary) moved
