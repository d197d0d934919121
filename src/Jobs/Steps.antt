-- ===== src/Jobs/Steps.antt =====
-- The private methods of JobService (jobs/service.py): the steps that its transactions are made of.
-- `now` is what `utc_now()` returns; a transaction reads the clock once here.
use Prim.Native.String.{◌++◌ as append}
use wirescope.Prelude.{
  ℕ, zero, ◌+◌, String, Bool, true, false, ◌&&◌, ◌||◌, Option, none, some, List, [], ◌∷◌, ◌++◌,
  str_eq, leb, truthy, is_some, keep, any, count, if◌then◌else◌,
}
use wirescope.Json.{Dict, text}
use wirescope.Result.{Result, ok, err, audit_not_found, job_not_found, ◌>>=◌, ◌>>◌}
use wirescope.Jobs.Models.{AuditStatus, JobStatus, JobError, terminal, status_value}
use wirescope.Jobs.State.{require_job_transition, require_audit_transition}
use wirescope.Persistence.{
  AuditModel, JobModel, ResourceLockModel, Db, find_audit, find_job, find_lock, put_audit, put_job,
}

abbrev pub or_now : Option ℕ → ℕ → ℕ
or_now none now = now
or_now (some t) now = t

abbrev or_raise {ℓ} : {A : Type ℓ} → Option A → Result A → Result A
or_raise none e = e
or_raise (some a) e = ok a

-- `_require_audit`
unfoldable pub require_audit : Db → String → Result AuditModel
require_audit db audit_id = or_raise (find_audit audit_id db) (err (audit_not_found audit_id))

-- `_require_job`
unfoldable pub require_job : Db → String → Result JobModel
require_job db job_id = or_raise (find_job job_id db) (err (job_not_found job_id))

-- `_add_event`, with the `details` that retries give.
unfoldable pub add_event_with : Dict → ℕ → JobModel → String → String → Db → Db
add_event_with details now job event_type message db = record db {
  events =
      db.events
      ++ record {
        id = db.next_event_id;
        audit_id = job.audit_id;
        job_id = job.id;
        created_at = now;
        event_type = event_type;
        stage = some job.stage;
        progress = some job.progress;
        message = message;
        details = details;
      }
        ∷ [];
  next_event_id = db.next_event_id + 1;
}

unfoldable pub add_event : ℕ → JobModel → String → String → Db → Db
unfolding add_event_with
add_event = add_event_with []

-- `_apply_error`
unfoldable pub apply_error : JobModel → Option JobError → JobModel
apply_error job none = job
apply_error job (some error) = record job {
  error_code = some error.code;
  error_category = some error.category;
  error_message = some error.message;
  error_component = some error.component;
  error_retryable = some error.retryable;
  error_details = some error.details;
}

abbrev is_running : JobStatus → Bool
is_running JobStatus.running = true
is_running _ = false

-- The row that `_transition_job` writes.
unfoldable pub moved : ℕ → JobModel → JobStatus → String → ℕ → String → Option JobError → JobModel
unfolding apply_error terminal
moved now job desired stage progress message error =
    apply_error
      (record job {
        status = desired;
        stage = stage;
        progress = progress;
        message = some message;
        started_at =
            if is_running desired then some (or_now job.started_at now) else job.started_at;
        finished_at = if terminal desired then some now else job.finished_at;
      })
      error

-- `_transition_job`: the row and its event.
unfoldable pub transition_job :
    ℕ → JobModel → JobStatus → String → ℕ → String → Option JobError → Db → Result (JobModel × Db)
transition_job now job desired stage progress message error db = do
  require_job_transition job.status desired
  let job' = moved now job desired stage progress message error
  ok (job', add_event now job' (append "job_" (status_value desired)) message (put_job job' db))

-- The statuses of an audit's jobs, as `_refresh_audit` selects them.
unfoldable pub statuses : String → List JobModel → List JobStatus
statuses audit_id [] = []
statuses audit_id (j ∷ js) =
    if str_eq j.audit_id audit_id then j.status ∷ statuses audit_id js else statuses audit_id js

abbrev pub is_active : JobStatus → Bool
is_active JobStatus.queued = true
is_active JobStatus.running = true
is_active _ = false

abbrev pub is_failed : JobStatus → Bool
is_failed JobStatus.failed = true
is_failed _ = false

abbrev pub is_interrupted : JobStatus → Bool
is_interrupted JobStatus.interrupted = true
is_interrupted _ = false

abbrev pub is_cancelled : JobStatus → Bool
is_cancelled JobStatus.cancelled = true
is_cancelled _ = false

-- The status that an audit with these jobs should have.
unfoldable pub desired_status : List JobStatus → AuditStatus
desired_status ss =
    if any is_active ss
    then AuditStatus.running
    else if any is_failed ss
    then AuditStatus.failed
    else if any is_interrupted ss
    then AuditStatus.interrupted
    else if any is_cancelled ss
    then AuditStatus.cancelled
    else AuditStatus.completed

abbrev pub audit_status_eq : AuditStatus → AuditStatus → Bool
audit_status_eq AuditStatus.created AuditStatus.created = true
audit_status_eq AuditStatus.running AuditStatus.running = true
audit_status_eq AuditStatus.completed AuditStatus.completed = true
audit_status_eq AuditStatus.failed AuditStatus.failed = true
audit_status_eq AuditStatus.cancelled AuditStatus.cancelled = true
audit_status_eq AuditStatus.interrupted AuditStatus.interrupted = true
audit_status_eq _ _ = false

-- The first failed or interrupted status, as the error that the audit shows.
unfoldable pub status_error : List JobStatus → Option Dict
unfolding status_value
status_error [] = none
status_error (s ∷ ss) =
    if is_failed s || is_interrupted s
    then some (("job_status", text (status_value s)) ∷ [])
    else status_error ss

-- The audit row that `_refresh_audit` writes.
unfoldable pub refreshed : ℕ → List JobStatus → AuditStatus → AuditModel → AuditModel
unfolding status_error
refreshed now ss AuditStatus.running audit = record audit {
  status = AuditStatus.running;
  started_at = some (or_now audit.started_at now);
  finished_at = none;
}
refreshed now ss AuditStatus.failed audit = record audit {
  status = AuditStatus.failed;
  finished_at = some now;
  error = status_error ss;
}
refreshed now ss AuditStatus.interrupted audit = record audit {
  status = AuditStatus.interrupted;
  finished_at = some now;
  error = status_error ss;
}
refreshed now ss AuditStatus.completed audit = record audit {
  status = AuditStatus.completed;
  finished_at = some now;
}
refreshed now ss AuditStatus.cancelled audit = record audit {
  status = AuditStatus.cancelled;
  finished_at = some now;
}
refreshed now ss AuditStatus.created audit = record audit { status = AuditStatus.created }

abbrev pub is_nil {ℓ} : {A : Type ℓ} → List A → Bool
is_nil [] = true
is_nil (_ ∷ _) = false

-- `_refresh_audit`
unfoldable pub refresh_audit : ℕ → String → Db → Result Db
unfolding require_audit
refresh_audit now audit_id db = do
  audit ← require_audit db audit_id
  let ss = statuses audit_id db.jobs
  let desired = desired_status ss
  if is_nil ss || audit_status_eq audit.status desired then ok db else do
    require_audit_transition audit.status desired
    ok (put_audit (refreshed now ss desired audit) db)

-- `_release_lock`
unfoldable pub release_lock : String → Db → Db
release_lock job_id db = record db {
  locks = keep (λ l. if str_eq l.job_id job_id then false else true) db.locks;
}

abbrev pub group_eq : Option String → Option String → Bool
group_eq (some a) (some b) = str_eq a b
group_eq _ _ = false

-- The locks that a group holds (`WHERE resource_group = :group`; NULL equals nothing).
unfoldable pub group_count : Option String → List ResourceLockModel → ℕ
group_count group locks = count (λ l. group_eq l.resource_group group) locks

abbrev pub key_taken : Option String → Db → Bool
key_taken none db = false
key_taken (some k) db = if str_eq k "" then false else is_some (find_lock k db)

abbrev pub group_full : Option String → Option ℕ → Db → Bool
group_full group none db = false
group_full group (some zero) db = false
group_full group (some limit) db = truthy group && leb limit (group_count group db.locks)

-- `_resource_available`
unfoldable pub resource_available : Db → JobModel → Bool
unfolding group_count
resource_available db job =
    if key_taken job.resource_key db
    then false
    else if group_full job.resource_group job.resource_limit db
    then false
    else true
