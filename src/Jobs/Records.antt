-- ===== src/Jobs/Records.antt =====
-- The records that JobService hands to its callers (jobs/models.py), and how it reads them off the
-- rows (`_audit_record`, `_job_record`, `_event_record`, `_later`, `_job_updated_at`).
use wirescope.Prelude.{
  ℕ, String, Bool, false, Option, none, some, List, [], ◌∷◌, ◌&&◌, ltb, str_eq, truthy,
  if◌then◌else◌,
}
use wirescope.Prelude.Int.{ℤ}
use wirescope.Json.{Dict}
use wirescope.Jobs.Models.{AuditStatus, JobStatus, JobError, ErrorCategory}
use wirescope.Persistence.{AuditModel, JobModel, JobEventModel}

pub record AuditRecord : Type 0 where
  pub id : String
  pub created_at : ℕ
  pub started_at : Option ℕ
  pub finished_at : Option ℕ
  pub status : AuditStatus
  pub profile : String
  pub interface : Option String
  pub scope : Dict
  pub actor : Option String
  pub environment_snapshot_reference : Option String
  pub summary : Dict
  pub error : Option Dict

pub record JobRecord : Type 0 where
  pub id : String
  pub audit_id : String
  pub type : String
  pub status : JobStatus
  pub priority : ℤ
  pub created_at : ℕ
  pub started_at : Option ℕ
  pub finished_at : Option ℕ
  pub updated_at : Option ℕ
  pub progress : ℕ
  pub stage : String
  pub message : Option String
  pub target : Option String
  pub parameters : Dict
  pub result_reference : Option String
  pub cancel_requested : Bool
  pub worker_id : Option String
  pub attempt : ℕ
  pub resource_key : Option String
  pub resource_group : Option String
  pub error : Option JobError

pub record JobEventRecord : Type 0 where
  pub id : ℕ
  pub audit_id : String
  pub job_id : String
  pub created_at : ℕ
  pub event_type : String
  pub stage : Option String
  pub progress : Option ℕ
  pub message : String
  pub details : Dict

unfoldable pub audit_record : AuditModel → AuditRecord
audit_record m = record {
  id = m.id;
  created_at = m.created_at;
  started_at = m.started_at;
  finished_at = m.finished_at;
  status = m.status;
  profile = m.profile;
  interface = m.interface;
  scope = m.scope_json;
  actor = m.actor;
  environment_snapshot_reference = m.environment_snapshot_reference;
  summary = m.summary;
  error = m.error;
}

unfoldable pub event_record : JobEventModel → JobEventRecord
event_record m = record {
  id = m.id;
  audit_id = m.audit_id;
  job_id = m.job_id;
  created_at = m.created_at;
  event_type = m.event_type;
  stage = m.stage;
  progress = m.progress;
  message = m.message;
  details = m.details;
}

unfoldable pub later : ℕ → Option ℕ → ℕ
later left none = left
later left (some right) = if ltb left right then right else left

-- `max(JobEventModel.created_at)` over the events of a job
unfoldable pub last_event : String → List JobEventModel → Option ℕ
unfolding later
last_event k [] = none
last_event k (e ∷ es) =
    let rest = last_event k es in if str_eq e.job_id k then some (later e.created_at rest) else rest

-- A row that its session still holds also counts its events; a detached row does not.
pub data Attached : Type 0 where
  attached : List JobEventModel → Attached
  detached : Attached

unfoldable pub job_updated_at : JobModel → Attached → ℕ
unfolding later last_event
job_updated_at m detached = later (later m.created_at m.started_at) m.finished_at
job_updated_at m (attached events) =
    later (later (later m.created_at m.started_at) m.finished_at) (last_event m.id events)

abbrev or_unknown : Option String → String
or_unknown none = "unknown"
or_unknown (some s) = if str_eq s "" then "unknown" else s

abbrev or_false : Option Bool → Bool
or_false none = false
or_false (some b) = b

abbrev or_empty : Option Dict → Dict
or_empty none = []
or_empty (some d) = d

-- The error columns of a row as one error: only if code, category and message are all there.
unfoldable pub job_error : JobModel → Option JobError
job_error m = go m.error_code m.error_category m.error_message
  where
    go : Option String → Option ErrorCategory → Option String → Option JobError
    go (some code) (some category) (some message) =
        if truthy (some code) && truthy (some message)
        then some (record {
          code = code;
          category = category;
          message = message;
          component = or_unknown m.error_component;
          retryable = or_false m.error_retryable;
          details = or_empty m.error_details;
        })
        else none
    go _ _ _ = none

unfoldable pub job_record : Attached → JobModel → JobRecord
unfolding job_error job_updated_at
job_record session m = record {
  id = m.id;
  audit_id = m.audit_id;
  type = m.type;
  status = m.status;
  priority = m.priority;
  created_at = m.created_at;
  started_at = m.started_at;
  finished_at = m.finished_at;
  updated_at = some (job_updated_at m session);
  progress = m.progress;
  stage = m.stage;
  message = m.message;
  target = m.target;
  parameters = m.parameters;
  result_reference = m.result_reference;
  cancel_requested = m.cancel_requested;
  worker_id = m.worker_id;
  attempt = m.attempt;
  resource_key = m.resource_key;
  resource_group = m.resource_group;
  error = job_error m;
}
