-- ===== src/Persistence.antt =====
-- persistence/models.py: the tables that the job system keeps, a row each as a record, and the
-- database as the state that a transaction reads and writes. Identifiers and keys are texts;
-- timestamps are natural numbers. A column with a CHECK constraint over fixed words is its enumeration.
use wirescope.Prelude.{ℕ, String, Bool, Option, List, []}
use wirescope.Prelude.Int.{ℤ}
use wirescope.Json.{Dict}
use wirescope.Jobs.Models.{AuditStatus, JobStatus, ErrorCategory}
use wirescope.Table

pub record AuditModel : Type 0 where
  pub id : String
  pub created_at : ℕ
  pub started_at : Option ℕ
  pub finished_at : Option ℕ
  pub status : AuditStatus
  pub profile : String
  pub interface : Option String
  pub scope_json : Dict
  pub actor : Option String
  pub environment_snapshot_reference : Option String
  pub summary : Dict
  pub error : Option Dict

pub record JobModel : Type 0 where
  pub id : String
  pub audit_id : String
  pub type : String
  pub status : JobStatus
  pub priority : ℤ
  pub created_at : ℕ
  pub started_at : Option ℕ
  pub finished_at : Option ℕ
  pub progress : ℕ
  pub stage : String
  pub message : Option String
  pub target : Option String
  pub parameters : Dict
  pub result_reference : Option String
  pub error_code : Option String
  pub error_category : Option ErrorCategory
  pub error_message : Option String
  pub error_component : Option String
  pub error_retryable : Option Bool
  pub error_details : Option Dict
  pub cancel_requested : Bool
  pub worker_id : Option String
  pub attempt : ℕ
  pub resource_key : Option String
  pub resource_group : Option String
  pub resource_limit : Option ℕ

pub record JobEventModel : Type 0 where
  pub id : ℕ
  pub audit_id : String
  pub job_id : String
  pub created_at : ℕ
  pub event_type : String
  pub stage : Option String
  pub progress : Option ℕ
  pub message : String
  pub details : Dict

pub record ResourceLockModel : Type 0 where
  pub resource_key : String
  pub resource_group : Option String
  pub job_id : String
  pub worker_id : String
  pub acquired_at : ℕ

pub data WorkerStatus : Type 0 where
  starting idle running stopped : WorkerStatus

pub record WorkerModel : Type 0 where
  pub id : String
  pub started_at : ℕ
  pub heartbeat_at : ℕ
  pub status : WorkerStatus
  pub current_job_id : Option String

-- The tables. `next_event_id` is the AUTOINCREMENT counter of `job_events`.
pub record Db : Type 0 where
  pub audits : List AuditModel
  pub jobs : List JobModel
  pub events : List JobEventModel
  pub next_event_id : ℕ
  pub locks : List ResourceLockModel
  pub workers : List WorkerModel

abbrev pub empty_db : Db
empty_db = record {
  audits = [];
  jobs = [];
  events = [];
  next_event_id = 1;
  locks = [];
  workers = [];
}

abbrev pub audit_key : AuditModel → String
audit_key a = a.id

abbrev pub job_key : JobModel → String
job_key j = j.id

abbrev pub lock_key : ResourceLockModel → String
lock_key l = l.resource_key

abbrev pub worker_key : WorkerModel → String
worker_key w = w.id

abbrev pub find_audit : String → Db → Option AuditModel
find_audit k db = Table.find audit_key k db.audits

abbrev pub find_job : String → Db → Option JobModel
find_job k db = Table.find job_key k db.jobs

abbrev pub find_lock : String → Db → Option ResourceLockModel
find_lock k db = Table.find lock_key k db.locks

abbrev pub find_worker : String → Db → Option WorkerModel
find_worker k db = Table.find worker_key k db.workers

-- The flush of a changed row.
abbrev pub put_audit : AuditModel → Db → Db
put_audit a db = record db { audits = Table.replace audit_key a db.audits }

abbrev pub put_job : JobModel → Db → Db
put_job j db = record db { jobs = Table.replace job_key j db.jobs }

abbrev pub put_worker : WorkerModel → Db → Db
put_worker w db = record db { workers = Table.replace worker_key w db.workers }
