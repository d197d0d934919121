-- ===== src/Jobs/Worker.antt =====
-- JobWorker (jobs/worker.py): one turn of the worker loop. A handler is a parameter: it is given the
-- records and the database, and answers with the database as it is when the handler ends (its progress
-- reports and what others did meanwhile included), whether the cancellation token was set by then, and
-- how it ended. Logging is left out.
use wirescope.Prelude.{
  ℕ, String, Bool, true, false, ◌||◌, Option, none, some, List, [], ◌∷◌, if◌then◌else◌,
}
use wirescope.Json.{Dict, text}
use wirescope.Result.{
  Error, Result, ok, err, audit_not_found, job_not_found, worker_not_found, artifact_not_found,
  invalid_job_transition, invalid_audit_transition, cannot_enqueue, value_error,
  worker_already_running, retry_not_allowed, integrity_error, finding_not_found,
  invalid_finding_state, ◌>>=◌,
}
use wirescope.Jobs.Models.{JobError, ErrorCategory}
use wirescope.Jobs.Records.{AuditRecord, JobRecord}
use wirescope.Jobs.Service.{get_audit, get_job}
use wirescope.Jobs.Execution.{claim_next, complete_job, fail_job, cancel_running_job}
use wirescope.Jobs.Supervision.{register_worker, heartbeat_worker}
use wirescope.Jobs.Registry.{resolve}
use wirescope.Persistence.{Db, idle, running}

pub data HandlerOutcome : Type 0 where
  -- `return HandlerResult(...)`
  returned : Option String → Dict → HandlerOutcome
  -- `raise JobCancelled(...)`
  raised_cancelled : String → Option String → Dict → HandlerOutcome
  -- `raise JobExecutionError(...)`
  raised_execution : JobError → HandlerOutcome
  -- any other exception, by the name of its type
  raised_other : String → HandlerOutcome

pub record HandlerRun : Type 0 where
  pub database : Db
  pub token_cancelled : Bool
  pub outcome : HandlerOutcome

abbrev pub Handler : Type 0
Handler = JobRecord → AuditRecord → Db → HandlerRun

-- `type(exc).__name__` of what the service raises
unfoldable pub type_name : Error → String
type_name (audit_not_found _) = "EntityNotFound"
type_name (job_not_found _) = "EntityNotFound"
type_name (worker_not_found _) = "EntityNotFound"
type_name (artifact_not_found _) = "EntityNotFound"
type_name (invalid_job_transition _ _) = "InvalidTransition"
type_name (invalid_audit_transition _ _) = "InvalidTransition"
type_name (cannot_enqueue _) = "InvalidTransition"
type_name (value_error _) = "ValueError"
type_name worker_already_running = "WorkerAlreadyRunning"
type_name (retry_not_allowed _) = "RetryNotAllowed"
type_name (integrity_error _) = "IntegrityError"
type_name (finding_not_found _) = "FindingNotFound"
type_name (invalid_finding_state _) = "InvalidFindingState"

unfoldable pub unhandled_exception : String → JobError
unhandled_exception name = record {
  code = "unhandled_exception";
  category = ErrorCategory.internal;
  message = "Job failed due to an internal error";
  component = "job_worker";
  retryable = false;
  details = ("exception_type", text name) ∷ [];
}

abbrev pub drop_record {ℓ} : {A : Type ℓ} → Result (A × Db) → Result Db
drop_record (ok (a, db)) = ok db
drop_record (err e) = err e

module _ (now : ℕ) (job_id : String) (token : Bool) where
  -- `cancel_running_job` if a cancellation was asked for, else `fail_job`
  unfoldable pub cancel_or_fail : JobError → Db → Result Db
  cancel_or_fail error db = do
    current ← get_job job_id db
    drop_record (
        if token || current.cancel_requested
        then cancel_running_job now job_id "Job cancelled" none none db
        else fail_job now job_id error db)

  -- The end of the `try` block, after the handler returned.
  unfoldable pub conclude : Option String → Dict → Db → Result Db
  conclude result_reference summary db = do
    current ← get_job job_id db
    drop_record (
        if token || current.cancel_requested
        then cancel_running_job now job_id "Job cancelled" result_reference (some summary) db
        else complete_job now job_id result_reference (some summary) db)

  -- `except Exception` also takes what `conclude` raises.
  abbrev or_unhandled : Result Db → Db → Result Db
  or_unhandled (ok db') db = ok db'
  or_unhandled (err e) db = cancel_or_fail (unhandled_exception (type_name e)) db

  -- The `try` statement and its three handlers.
  unfoldable pub settle : HandlerOutcome → Db → Result Db
  unfolding conclude cancel_or_fail unhandled_exception
  settle (returned result_reference summary) db =
      or_unhandled (conclude result_reference summary db) db
  settle (raised_cancelled message result_reference summary) db =
      drop_record (cancel_running_job now job_id message result_reference (some summary) db)
  settle (raised_execution error) db = cancel_or_fail error db
  settle (raised_other name) db = cancel_or_fail (unhandled_exception name) db

-- `registry.resolve` raises LookupError inside the `try`.
unfoldable pub run_handler : List (String × Handler) → JobRecord → AuditRecord → Db → HandlerRun
unfolding resolve
run_handler registry job audit db = elim (resolve job.type registry) [
  | none ↦ record { database = db; token_cancelled = false; outcome = raised_other "LookupError" }
  | some handler ↦ handler job audit db
]

-- The database after a step that may raise, and what it raised.
abbrev pub Step : Type 0
Step = Db × Option Error

abbrev pub ended : Db → Result Db → Step
ended db (ok db') = (db', none)
ended db (err e) = (db, some e)

-- `finally: heartbeat idle`, whatever the block above raised.
unfoldable pub finally_idle : ℕ → String → Step → Step
finally_idle now worker_id (db, raised) = elim (heartbeat_worker now worker_id idle none db) [
  | ok db' ↦ (db', raised)
  | err e ↦ (db, some e)
]

-- The last `get_job`, which nothing reads but the log.
unfoldable pub last_lookup : String → Step → Step
last_lookup job_id (db, some e) = (db, some e)
last_lookup job_id (db, none) = elim (get_job job_id db) [
  | ok job ↦ (db, none)
  | err e ↦ (db, some e)
]

-- `_execute`
unfoldable pub execute : ℕ → String → List (String × Handler) → JobRecord → AuditRecord → Db → Step
unfolding settle run_handler finally_idle last_lookup
execute now worker_id registry job audit db =
    elim (heartbeat_worker now worker_id running (some job.id) db) [
      | err e ↦ (db, some e)
      | ok db₁ ↦
          let run = run_handler registry job audit db₁ in
          last_lookup job.id (
            finally_idle now worker_id
              (ended run.database (settle now job.id run.token_cancelled run.outcome run.database)))
    ]

-- `startup`, for a worker that has not registered yet.
unfoldable pub startup : ℕ → String → Bool → Db → Result Db
startup now worker_id true db = ok db
startup now worker_id false db =
    heartbeat_worker now worker_id idle none (register_worker now worker_id db)

abbrev execute_claimed : ℕ → String → List (String × Handler) → Option JobRecord → Db → Step × Bool
execute_claimed now worker_id registry none db = ((db, none), false)
execute_claimed now worker_id registry (some job) db = elim (get_audit job.audit_id db) [
  | err e ↦ ((db, some e), false)
  | ok audit ↦ (execute now worker_id registry job audit db, true)
]

-- `run_once`: claim a job and run it; the Boolean says whether there was one.
unfoldable pub run_once : ℕ → String → Bool → List (String × Handler) → Db → Step × Bool
unfolding execute startup
run_once now worker_id registered registry db = elim (startup now worker_id registered db) [
  | err e ↦ ((db, some e), false)
  | ok db₁ ↦ elim (heartbeat_worker now worker_id idle none db₁) [
    | err e ↦ ((db₁, some e), false)
    | ok db₂ ↦ elim (claim_next now worker_id db₂) [
      | err e ↦ ((db₂, some e), false)
      | ok (claimed, db₃) ↦ execute_claimed now worker_id registry claimed db₃
    ]
  ]
]
