-- ===== src/Jobs/Supervision.antt =====
-- The methods of JobService (jobs/service.py) for workers and for recovery after a restart.
use wirescope.Prelude.{
  ℕ, ◌+◌, String, Bool, true, false, ◌&&◌, Option, none, some, List, [], ◌∷◌, ◌++◌, map, str_eq,
  leb, ltb, not, keep, any, count, length, if◌then◌else◌,
}
use wirescope.Result.{Result, ok, err, guard, worker_not_found, worker_already_running, ◌>>=◌, ◌>>◌}
use wirescope.Jobs.Models.{JobStatus, JobError, ErrorCategory}
use wirescope.Jobs.Steps.{transition_job, refresh_audit}
use wirescope.Jobs.Execution.{is_running}
use wirescope.Persistence.{
  JobModel, WorkerModel, WorkerStatus, starting, idle, running, stopped, Db, find_worker,
  put_worker,
}

abbrev pub application_restart : JobError
application_restart = record {
  code = "application_restart";
  category = ErrorCategory.internal;
  message = "Job interrupted by application restart";
  component = "job_recovery";
  retryable = true;
  details = [];
}

abbrev pub runs : JobModel → Bool
runs j = is_running j.status

-- The loop that interrupts what was running.
unfoldable pub interrupt_all : ℕ → List JobModel → Db → Result Db
interrupt_all now [] db = ok db
interrupt_all now (job ∷ rest) db = do
  (job', moved) ←
      transition_job now job JobStatus.interrupted "interrupted" job.progress
        "Application restarted during execution" (some application_restart) db
  interrupt_all now rest moved

-- `{job.audit_id for job in running}`. A Python set has no order; here each audit comes at its last
-- occurrence.
unfoldable pub audit_ids : List JobModel → List String
audit_ids [] = []
audit_ids (j ∷ js) =
    let rest = audit_ids js in
    if any (λ k. str_eq k j.audit_id) rest then rest else j.audit_id ∷ rest

unfoldable pub refresh_all : ℕ → List String → Db → Result Db
refresh_all now [] db = ok db
refresh_all now (k ∷ ks) db = do db' ← refresh_audit now k db; refresh_all now ks db'

-- `UPDATE workers SET status = 'stopped', current_job_id = NULL`
unfoldable pub stop_workers : Db → Db
stop_workers db = record db {
  workers =
      map (λ (w : WorkerModel). record w { status = stopped; current_job_id = none }) db.workers;
}

-- `_recover_running`
unfoldable pub recover_running : ℕ → Db → Result (ℕ × Db)
unfolding interrupt_all stop_workers refresh_all audit_ids
recover_running now db = do
  let running_jobs = keep runs db.jobs
  db₁ ← interrupt_all now running_jobs db
  let db₂ = stop_workers (record db₁ { locks = [] })
  db₃ ← refresh_all now (audit_ids running_jobs) db₂
  ok (length running_jobs, db₃)

unfoldable pub recover_after_restart : ℕ → Db → Result (ℕ × Db)
unfolding recover_running
recover_after_restart = recover_running

-- A worker row as it starts, new or again.
unfoldable pub register_worker : ℕ → String → Db → Db
register_worker now worker_id db = elim (find_worker worker_id db) [
  | none ↦ record db {
    workers =
        db.workers
        ++ record {
          id = worker_id;
          started_at = now;
          heartbeat_at = now;
          status = starting;
          current_job_id = none;
        }
          ∷ [];
  }
  | some worker ↦
      put_worker
        (record worker {
          started_at = now;
          heartbeat_at = now;
          status = starting;
          current_job_id = none;
        })
        db
]

unfoldable pub heartbeat_worker : ℕ → String → WorkerStatus → Option String → Db → Result Db
heartbeat_worker now worker_id status current_job_id db = elim (find_worker worker_id db) [
  | none ↦ err (worker_not_found worker_id)
  | some worker ↦ ok (
      put_worker
        (record worker { heartbeat_at = now; status = status; current_job_id = current_job_id }) db)
]

abbrev pub is_ready : WorkerStatus → Bool
is_ready idle = true
is_ready running = true
is_ready _ = false

abbrev pub is_alive : WorkerStatus → Bool
is_alive stopped = false
is_alive _ = true

-- `heartbeat_at >= now - stale_after_seconds`
abbrev pub is_fresh : ℕ → ℕ → WorkerModel → Bool
is_fresh now stale w = leb now (w.heartbeat_at + stale)

unfoldable pub worker_is_ready : ℕ → ℕ → Db → Bool
worker_is_ready now stale db =
    ltb 0 (count (λ w. is_fresh now stale w && is_ready w.status) db.workers)

unfoldable pub prepare_supervisor : ℕ → ℕ → String → Db → Result (ℕ × Db)
unfolding recover_running register_worker
prepare_supervisor now stale supervisor_id db = do
  guard (not (ltb 0 (count (λ w. is_fresh now stale w && is_alive w.status) db.workers)))
      worker_already_running
  (recovered, db') ← recover_running now db
  ok (recovered, register_worker now supervisor_id db')
