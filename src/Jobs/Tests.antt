-- ===== src/Jobs/Tests.antt =====
-- The theorems on the job system applied to a small database, and runs of its operations.
mod Upkeep
use wirescope.Prelude.{
  ℕ, String, ◌≡◌, refl, true, false, none, some, [], ◌∷◌, arith, eq_iff, ◌↔◌, Option,
}
use wirescope.Prelude.Int.{pos}
use wirescope.Json.{text}
use wirescope.Jobs.Models.{AuditStatus, JobStatus, terminal}
use wirescope.Jobs.State.{job_transitions}
use wirescope.Jobs.State.Graph.{terminal_iff}
use wirescope.Jobs.Steps.{statuses, desired_status}
use wirescope.Jobs.Execution.{complete_job, cancel_running_job}
use wirescope.Jobs.Worker.{settle, raised_other}
use wirescope.Jobs.Ending.{Ends, complete_job-Ends, cancel_running_job-Ends}
use wirescope.Jobs.Outcome.{Settles, settle-Settles}
use wirescope.Jobs.Coherence.{IsCoherent}
use wirescope.Persistence.{AuditModel, JobModel, Db, find_audit, find_job}
use wirescope.Table
use wirescope.Prelude.Sort.{sort_by}
use wirescope.Jobs.State.{require_job_transition, require_audit_transition}
use wirescope.Jobs.Steps.{
  transition_job, require_audit, require_job, resource_available, refresh_audit, moved, add_event,
}
use wirescope.Jobs.Execution.{claim, enter, lock_resource, start_audit, update_progress}
use wirescope.Jobs.Service.{NewJob, create_job, insert_job, reopen_completed}
use wirescope.Jobs.State.{audit_job_accepting}
use wirescope.Jobs.Service.{new_job}
use wirescope.Jobs.Progress.{Progressed, update_progress-moves}
use wirescope.Jobs.Recovery.{retryable, replacement, retry, reopen, needs_credentials}
use wirescope.Jobs.Coherence.Claims.{claim_next-IsCoherent}
use wirescope.Jobs.Coherence.Create.{create_job-IsCoherent}
use wirescope.Jobs.Coherence.Queue.{request_cancel-IsCoherent}
use wirescope.Jobs.Coherence.Retry.{retry-IsCoherent}
use wirescope.Persistence.{empty_db, job_key}
use wirescope.Prelude.Int.{pos}
use wirescope.Result.{Result, ok, err}
use wirescope.Jobs.Records.{JobRecord, job_record, detached}
use wirescope.Jobs.Models.{JobProgress}
use wirescope.Jobs.Execution.{claim_next, claim_from, candidates, request_cancel}
use wirescope.Table.Keys.{Distinct}
use wirescope.Jobs.Coherence.Create.{IsOwned}
use wirescope.Jobs.Restart.Recovering.{Recovered, recover_after_restart-Recovered}
use wirescope.Jobs.Choice.{Chosen, claim_next-Chosen}

abbrev audit_of : AuditStatus → AuditModel
audit_of status = record {
  id = "audit-1";
  created_at = 1;
  started_at = some 2;
  finished_at = none;
  status = status;
  profile = "standard";
  interface = some "eth0";
  scope_json = [];
  actor = some "auditor";
  environment_snapshot_reference = none;
  summary = [];
  error = none;
}

abbrev pub job_of : String → JobStatus → ℕ → JobModel
job_of id status priority = record {
  id = id;
  audit_id = "audit-1";
  type = "passive_discovery";
  status = status;
  priority = pos priority;
  created_at = 1;
  started_at = none;
  finished_at = none;
  progress = 0;
  stage = "queued";
  message = none;
  target = none;
  parameters = [];
  result_reference = none;
  error_code = none;
  error_category = none;
  error_message = none;
  error_component = none;
  error_retryable = none;
  error_details = none;
  cancel_requested = false;
  worker_id = none;
  attempt = 0;
  resource_key = some "interface:eth0";
  resource_group = some "capture";
  resource_limit = some 2;
}

abbrev pub running_job : JobModel
running_job = job_of "job-1" JobStatus.running 0

abbrev pub queued_job : JobModel
queued_job = job_of "job-2" JobStatus.queued 1

-- One audit that runs: a job that holds its lock, and a job that waits for it.
abbrev pub busy_db : Db
busy_db = record {
  audits = audit_of AuditStatus.running ∷ [];
  jobs = running_job ∷ queued_job ∷ [];
  events = [];
  next_event_id = 1;
  locks =
      record {
        resource_key = "interface:eth0";
        resource_group = some "capture";
        job_id = "job-1";
        worker_id = "worker-1";
        acquired_at = 2;
      }
      ∷ [];
  workers = [];
}

busy_audit : find_audit "audit-1" busy_db ≡ some (audit_of AuditStatus.running)
unfolding Table.find
busy_audit = refl

busy_job : find_job "job-1" busy_db ≡ some running_job
unfolding Table.find
busy_job = refl

busy-IsCoherent : IsCoherent busy_db
unfolding Table.find statuses
busy-IsCoherent k a f = ground (arith, eq_iff "audit-1" k)

settle-Settles_example : Settles "job-1" (settle 5 "job-1" false (raised_other "KeyError") busy_db)
settle-Settles_example =
    settle-Settles 5 "job-1" false busy_db running_job (audit_of AuditStatus.running)
      busy-IsCoherent busy_job refl busy_audit (raised_other "KeyError")

complete_job-Ends_example :
    Ends "job-1" JobStatus.completed (complete_job 5 "job-1" (some "report") none busy_db)
complete_job-Ends_example =
    complete_job-Ends 5 "job-1" busy_db running_job (audit_of AuditStatus.running) busy-IsCoherent
      busy_job refl busy_audit (some "report") none

cancel_running_job-Ends_example :
    Ends "job-1" JobStatus.cancelled
      (cancel_running_job 5 "job-1" "Job cancelled" none (some (("hosts", text "3") ∷ [])) busy_db)
cancel_running_job-Ends_example =
    cancel_running_job-Ends 5 "job-1" busy_db running_job (audit_of AuditStatus.running)
      busy-IsCoherent busy_job refl busy_audit "Job cancelled" none
      (some (("hosts", text "3") ∷ []))

terminal_iff_example :
    (terminal JobStatus.failed ≡ true)
    ↔ ((t : JobStatus) → job_transitions JobStatus.failed t ≡ false)
terminal_iff_example = terminal_iff JobStatus.failed

-- The value of a call that returns.
abbrev value {ℓ} : {A : Type ℓ} → A → Result A → A
value default (ok a) = a
value default (err e) = default

-- One audit with two queued jobs; the second has the higher priority.
abbrev queued_db : Db
queued_db = record empty_db {
  audits = audit_of AuditStatus.created ∷ [];
  jobs = job_of "job-1" JobStatus.queued 0 ∷ queued_job ∷ [];
}

queued-IsCoherent : IsCoherent queued_db
unfolding Table.find statuses
queued-IsCoherent k a f = ground (arith, eq_iff "audit-1" k)

abbrev claimed : Option JobRecord × Db
claimed = value (none, empty_db) (claim_next 5 "worker-1" queued_db)

queued-Distinct : Distinct job_key queued_db.jobs
queued-Distinct = ((λ e. ground (arith, eq_iff "job-1" "job-2"), tt), (tt, tt))

claims : claim_next 5 "worker-1" queued_db ≡ ok claimed
unfolding claim_next candidates sort_by claim_from claim enter lock_resource start_audit
    transition_job require_job_transition require_audit_transition require_audit resource_available
    Table.find Table.replace moved add_event
claims = refl

claim_next-IsCoherent_example : IsCoherent claimed.1
claim_next-IsCoherent_example =
    claim_next-IsCoherent 5 "worker-1" queued_db claimed.0 claimed.1 queued-Distinct
      queued-IsCoherent claims

abbrev claimed_job : JobRecord
claimed_job = job_record detached running_job

abbrev request : NewJob
request = record {
  audit_id = "audit-1";
  job_type = "port_scan";
  target = none;
  parameters = [];
  priority = pos 3;
  resource_key = none;
  resource_group = none;
  resource_limit = none;
}

abbrev added : JobRecord × Db
added = value (claimed_job, empty_db) (create_job 6 "job-3" request busy_db)

adds : create_job 6 "job-3" request busy_db ≡ ok added
unfolding create_job require_audit insert_job reopen_completed Table.find audit_job_accepting
    new_job
adds = refl

create_job-IsCoherent_example : IsCoherent added.1
create_job-IsCoherent_example =
    create_job-IsCoherent 6 "job-3" request busy_db added.0 added.1 busy-IsCoherent adds

abbrev cancelled : JobRecord × Db
cancelled = value (claimed_job, empty_db) (request_cancel 6 "job-2" busy_db)

cancels : request_cancel 6 "job-2" busy_db ≡ ok cancelled
unfolding request_cancel require_job transition_job require_job_transition refresh_audit Table.find
    add_event moved statuses Table.replace desired_status
cancels = refl

request_cancel-IsCoherent_example : IsCoherent cancelled.1
request_cancel-IsCoherent_example =
    request_cancel-IsCoherent 6 "job-2" busy_db cancelled.0 cancelled.1 busy-IsCoherent cancels

abbrev halfway : JobProgress
halfway = record { percentage = 50; stage = "capture"; message = "Capturing" }

abbrev progressed : JobRecord × Db
progressed = value (claimed_job, empty_db) (update_progress 6 "job-1" halfway busy_db)

progresses : update_progress 6 "job-1" halfway busy_db ≡ ok progressed
unfolding update_progress require_job Table.find
progresses = refl

update_progress-moves_example : Progressed "job-1" halfway busy_db progressed.1
update_progress-moves_example =
    update_progress-moves 6 "job-1" halfway busy_db progressed.0 progressed.1 progresses

-- One audit that failed with its job.
abbrev failed_db : Db
failed_db = record empty_db {
  audits = audit_of AuditStatus.failed ∷ [];
  jobs = job_of "job-1" JobStatus.failed 0 ∷ [];
}

failed-IsCoherent : IsCoherent failed_db
unfolding Table.find statuses desired_status
failed-IsCoherent k a f = ground (arith, eq_iff "audit-1" k)

abbrev retried : JobRecord × Db
retried = value (claimed_job, empty_db) (retry 6 "job-2" "job-1" (some "auditor") failed_db)

retries : retry 6 "job-2" "job-1" (some "auditor") failed_db ≡ ok retried
unfolding retry require_job require_audit reopen insert_job Table.find retryable needs_credentials
    require_audit_transition replacement
retries = refl

retry-IsCoherent_example : IsCoherent retried.1
retry-IsCoherent_example =
    retry-IsCoherent 6 "job-2" "job-1" (some "auditor") failed_db retried.0 retried.1
      failed-IsCoherent retries

busy-Distinct : Distinct job_key busy_db.jobs
busy-Distinct = ((λ e. ground (arith, eq_iff "job-1" "job-2"), tt), (tt, tt))

busy-IsOwned : IsOwned busy_db
unfolding Table.find
busy-IsOwned = (refl, (refl, tt))

recover_after_restart-Recovered_example : Recovered 9 busy_db
recover_after_restart-Recovered_example =
    recover_after_restart-Recovered 9 busy_db busy-Distinct busy-IsOwned busy-IsCoherent

claim_next-Chosen_example : Chosen "worker-1" queued_db claimed.0 claimed.1
claim_next-Chosen_example = claim_next-Chosen 5 "worker-1" queued_db claimed.0 claimed.1 claims
