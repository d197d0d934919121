-- ===== src/Jobs/Recovery.antt =====
-- RecoveryService (backend/recovery.py): a finished job is never run again, it gets a replacement.
use Prim.Native.String.{◌++◌ as append}
use wirescope.Prelude.{
  ℕ, String, Bool, true, false, ◌&&◌, ◌||◌, not, Option, none, some, [], ◌∷◌, str_eq, any,
}
use wirescope.Json.{Json, null, text}
use wirescope.Result.{Result, ok, guard, retry_not_allowed, ◌>>=◌, ◌>>◌}
use wirescope.Jobs.Models.{AuditStatus, JobStatus}
use wirescope.Jobs.State.{require_audit_transition}
use wirescope.Jobs.Records.{JobRecord, job_record, attached}
use wirescope.Jobs.Steps.{require_audit, require_job, add_event_with, or_now, is_active}
use wirescope.Jobs.Service.{insert_job}
use wirescope.Persistence.{AuditModel, JobModel, Db, put_audit}

-- `RETRYABLE_STATES`
unfoldable pub retryable : JobStatus → Bool
retryable JobStatus.failed = true
retryable JobStatus.interrupted = true
retryable JobStatus.cancelled = true
retryable _ = false

unfoldable pub needs_credentials : String → Bool
needs_credentials type = str_eq type "snmp_topology" || str_eq type "ssh_topology"

-- An equivalent job: same audit, same type, queued or running.
abbrev pub is_equivalent : JobModel → JobModel → Bool
is_equivalent source j =
    str_eq j.audit_id source.audit_id && str_eq j.type source.type && is_active j.status

abbrev or_null : Option String → Json
or_null none = null
or_null (some s) = text s

-- The audit of a retried job runs again, whatever ended it.
unfoldable pub reopen : ℕ → AuditModel → Result AuditModel
reopen now audit = elim audit.status [
  | AuditStatus.running ↦ ok audit
  | _ ↦ do
    require_audit_transition audit.status AuditStatus.running
    ok (record audit { status = AuditStatus.running; finished_at = none; error = none })
]

-- The replacement of a finished job.
unfoldable pub replacement : ℕ → String → JobModel → JobModel
replacement now id source = record source {
  id = id;
  status = JobStatus.queued;
  created_at = now;
  started_at = none;
  finished_at = none;
  progress = 0;
  stage = "queued";
  message = some (append "Retry queued for " source.id);
  result_reference = none;
  error_code = none;
  error_category = none;
  error_message = none;
  error_component = none;
  error_retryable = none;
  error_details = none;
  cancel_requested = false;
  worker_id = none;
  attempt = 0;
}

unfoldable pub retry : ℕ → String → String → Option String → Db → Result (JobRecord × Db)
retry now new_id job_id actor db = do
  source ← require_job db job_id
  guard (retryable source.status) (retry_not_allowed "status")
  guard (not (needs_credentials source.type)) (retry_not_allowed "credentials")
  guard (not (any (is_equivalent source) db.jobs)) (retry_not_allowed "active")
  audit ← require_audit db source.audit_id
  opened ← reopen now audit
  let job = replacement now new_id source
  added ←
      insert_job job
        (put_audit (record opened { started_at = some (or_now opened.started_at now) }) db)
  let noted =
      add_event_with (("retry_of", text source.id) ∷ ("actor", or_null actor) ∷ []) now job
        "job_retried" "Retry queued" added
  let scheduled =
      add_event_with (("retry_job_id", text new_id) ∷ ("actor", or_null actor) ∷ []) now source
        "retry_scheduled" "Replacement job queued" noted
  ok (job_record (attached scheduled.events) job, scheduled)
