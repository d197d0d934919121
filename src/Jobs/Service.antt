-- ===== src/Jobs/Service.antt =====
-- The public methods of JobService (jobs/service.py) on audits and jobs. A method is a function of the
-- database that returns the new one with the record that the caller gets, or the exception; on an
-- exception the transaction is rolled back, so `commit` keeps the old database. New identifiers
-- (`uuid4`) and the clock are arguments.
use wirescope.Prelude.{ℕ, String, false, Option, none, some, [], ◌∷◌, ◌++◌, is_some, if◌then◌else◌}
use wirescope.Prelude.Int.{ℤ}
use wirescope.Json.{Dict, text, bool, obj, to_fields}
use wirescope.Result.{Result, ok, err, guard, cannot_enqueue, integrity_error, ◌>>=◌, ◌>>◌}
use wirescope.Jobs.Models.{AuditStatus, JobStatus, JobError, category_value}
use wirescope.Jobs.State.{audit_job_accepting, require_audit_transition}
use wirescope.Jobs.Records.{AuditRecord, JobRecord, audit_record, job_record, attached, detached}
use wirescope.Jobs.Steps.{require_audit, require_job, add_event}
use wirescope.Persistence.{AuditModel, JobModel, Db, find_audit, find_job, put_audit}

-- What is in the database after a call that returned or raised.
abbrev pub commit {ℓ} : {A : Type ℓ} → Db → Result (A × Db) → Db
commit db (ok (a, db')) = db'
commit db (err e) = db

-- `session.add(audit)`
unfoldable pub insert_audit : AuditModel → Db → Result Db
insert_audit a db =
    if is_some (find_audit a.id db)
    then err (integrity_error "audits.id")
    else ok (record db { audits = db.audits ++ a ∷ [] })

-- `session.add(job)`
unfoldable pub insert_job : JobModel → Db → Result Db
insert_job j db =
    if is_some (find_job j.id db)
    then err (integrity_error "jobs.id")
    else ok (record db { jobs = db.jobs ++ j ∷ [] })

unfoldable pub create_audit :
    ℕ → String → String → Option String → Dict → Option String → Db → Result (AuditRecord × Db)
unfolding insert_audit
create_audit now id profile interface scope actor db = do
  let audit : AuditModel = record {
    id = id;
    created_at = now;
    started_at = none;
    finished_at = none;
    status = AuditStatus.created;
    profile = profile;
    interface = interface;
    scope_json = scope;
    actor = actor;
    environment_snapshot_reference = none;
    summary = [];
    error = none;
  }
  db' ← insert_audit audit db
  ok (audit_record audit, db')

unfoldable pub set_environment_reference : String → String → Db → Result (AuditRecord × Db)
set_environment_reference audit_id artifact_id db = do
  audit ← require_audit db audit_id
  let audit' = record audit { environment_snapshot_reference = some artifact_id }
  ok (audit_record audit', put_audit audit' db)

-- `error.model_dump(mode="json")`
unfoldable pub model_dump : JobError → Dict
unfolding category_value
model_dump e =
    ("code", text e.code)
    ∷ ("category", text (category_value e.category))
    ∷ ("message", text e.message)
    ∷ ("component", text e.component)
    ∷ ("retryable", bool e.retryable)
    ∷ ("details", obj (to_fields e.details))
    ∷ []

unfoldable pub fail_audit : ℕ → String → JobError → Db → Result (AuditRecord × Db)
unfolding model_dump
fail_audit now audit_id error db = do
  audit ← require_audit db audit_id
  require_audit_transition audit.status AuditStatus.failed
  let audit' = record audit {
    status = AuditStatus.failed;
    finished_at = some now;
    error = some (model_dump error);
  }
  ok (audit_record audit', put_audit audit' db)

unfoldable pub get_audit : String → Db → Result AuditRecord
get_audit audit_id db = do audit ← require_audit db audit_id; ok (audit_record audit)

unfoldable pub get_job : String → Db → Result JobRecord
get_job job_id db = do job ← require_job db job_id; ok (job_record (attached db.events) job)

-- The arguments of `create_job`.
pub record NewJob : Type 0 where
  pub audit_id : String
  pub job_type : String
  pub target : Option String
  pub parameters : Dict
  pub priority : ℤ
  pub resource_key : Option String
  pub resource_group : Option String
  pub resource_limit : Option ℕ

-- The queued row of a new job.
unfoldable pub new_job : ℕ → String → NewJob → JobModel
new_job now id request = record {
  id = id;
  audit_id = request.audit_id;
  type = request.job_type;
  status = JobStatus.queued;
  priority = request.priority;
  created_at = now;
  started_at = none;
  finished_at = none;
  progress = 0;
  stage = "queued";
  message = some "Job queued";
  target = request.target;
  parameters = request.parameters;
  result_reference = none;
  error_code = none;
  error_category = none;
  error_message = none;
  error_component = none;
  error_retryable = none;
  error_details = none;
  cancel_requested = false;
  worker_id = none;
  attempt = 0;
  resource_key = request.resource_key;
  resource_group = request.resource_group;
  resource_limit = request.resource_limit;
}

-- A completed audit that gets a new job runs again.
unfoldable pub reopen_completed : AuditModel → Db → Result Db
unfolding require_audit_transition
reopen_completed audit db = elim audit.status [
  | AuditStatus.completed ↦ do
    require_audit_transition audit.status AuditStatus.running
    ok (put_audit (record audit { status = AuditStatus.running; finished_at = none }) db)
  | _ ↦ ok db
]

unfoldable pub create_job : ℕ → String → NewJob → Db → Result (JobRecord × Db)
create_job now id request db = do
  audit ← require_audit db request.audit_id
  guard (audit_job_accepting audit.status) (cannot_enqueue audit.status)
  opened ← reopen_completed audit db
  let job = new_job now id request
  added ← insert_job job opened
  ok (job_record detached job, add_event now job "job_queued" "Job queued" added)
