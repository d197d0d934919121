-- ===== src/Jobs/Calls.antt =====
-- Any sequence of calls of the job system (jobs/service.py, backend/recovery.py). A call that raises
-- leaves the database as it was. `fail_audit` is not among them: the program calls it only for an audit
-- that it has just created, and on another audit it would break the agreement with its jobs.
pub mod Soundness
mod Tests
use wirescope.Prelude.{ℕ, String, Option, List, [], ◌∷◌}
use wirescope.Result.{Result, ok, err}
use wirescope.Json.{Dict}
use wirescope.Jobs.Models.{JobError, JobProgress}
use wirescope.Jobs.Service.{NewJob, commit, create_audit, create_job, set_environment_reference}
use wirescope.Jobs.Execution.{
  request_cancel, claim_next, update_progress, complete_job, fail_job, cancel_running_job,
}
use wirescope.Jobs.Supervision.{
  recover_after_restart, prepare_supervisor, register_worker, heartbeat_worker,
}
use wirescope.Jobs.Recovery.{retry}
use wirescope.Jobs.Coherence.{IsCoherent}
use wirescope.Jobs.Writes.{IsStored}
use wirescope.Persistence.{Db, WorkerStatus}
use wirescope.Table

pub data Call : Type 0 where
  creates_audit : ℕ → String → String → Option String → Dict → Option String → Call
  sets_environment : String → String → Call
  creates_job : ℕ → String → NewJob → Call
  cancels : ℕ → String → Call
  claims : ℕ → String → Call
  reports : ℕ → String → JobProgress → Call
  completes : ℕ → String → Option String → Option Dict → Call
  fails : ℕ → String → JobError → Call
  stops : ℕ → String → String → Option String → Option Dict → Call
  recovers : ℕ → Call
  prepares : ℕ → ℕ → String → Call
  registers : ℕ → String → Call
  beats : ℕ → String → WorkerStatus → Option String → Call
  retries : ℕ → String → String → Option String → Call

abbrev pub kept : Db → Result Db → Db
kept db (ok db') = db'
kept db (err e) = db

unfoldable pub call : Call → Db → Db
call (creates_audit now id profile interface scope actor) db =
    commit db (create_audit now id profile interface scope actor db)
call (sets_environment audit_id artifact_id) db =
    commit db (set_environment_reference audit_id artifact_id db)
call (creates_job now id request) db = commit db (create_job now id request db)
call (cancels now k) db = commit db (request_cancel now k db)
call (claims now worker_id) db = commit db (claim_next now worker_id db)
call (reports now k progress) db = commit db (update_progress now k progress db)
call (completes now k ref summary) db = commit db (complete_job now k ref summary db)
call (fails now k error) db = commit db (fail_job now k error db)
call (stops now k message ref summary) db =
    commit db (cancel_running_job now k message ref summary db)
call (recovers now) db = commit db (recover_after_restart now db)
call (prepares now stale supervisor_id) db =
    commit db (prepare_supervisor now stale supervisor_id db)
call (registers now worker_id) db = register_worker now worker_id db
call (beats now worker_id status job) db = kept db (heartbeat_worker now worker_id status job db)
call (retries now id k actor) db = commit db (retry now id k actor db)

unfoldable pub run : List Call → Db → Db
unfolding call
run [] db = db
run (c ∷ calls) db = run calls (call c db)

-- Job identifiers are distinct, every job has its audit, and audits agree with their jobs.
abbrev pub IsSound : Db → Type 0
IsSound db = IsStored db × IsCoherent db
