-- ===== src/Jobs/Calls/Tests.antt =====
-- The theorems on sequences of calls applied to a short one.
use wirescope.Prelude.{some, none, List, [], ◌∷◌, Option, true, ◌≡◌, refl}
use wirescope.Prelude.Int.{pos}
use wirescope.Jobs.Service.{NewJob}
use wirescope.Jobs.Calls.{
  Call, run, IsSound, creates_audit, creates_job, claims, completes, cancels, recovers,
}
use wirescope.Jobs.Calls.Soundness.{run-IsSound}
use wirescope.Persistence.{empty_db}
use wirescope.Jobs.State.{audit_job_accepting, require_job_transition}
use wirescope.Jobs.Service.{
  new_job, create_audit, insert_audit, create_job, insert_job, reopen_completed,
}
use wirescope.Jobs.Steps.{
  require_audit, require_job, transition_job, refresh_audit, add_event, moved, statuses,
  desired_status,
}
use wirescope.Jobs.Execution.{request_cancel}
use wirescope.Jobs.Calls.Soundness.{run-Later, run-terminal}
use wirescope.Jobs.Writes.{Later}
use wirescope.Jobs.Models.{terminal}
use wirescope.Persistence.{JobModel, empty_db, find_job}
use wirescope.Table

abbrev request : NewJob
request = record {
  audit_id = "audit-1";
  job_type = "port_scan";
  target = none;
  parameters = [];
  priority = pos 3;
  resource_key = some "interface:eth0";
  resource_group = none;
  resource_limit = none;
}

abbrev before : List Call
before =
    creates_audit 1 "audit-1" "standard" none [] none
    ∷ creates_job 2 "job-1" request
    ∷ cancels 3 "job-1"
    ∷ []

abbrev after : List Call
after = claims 4 "worker-1" ∷ completes 5 "job-1" none none ∷ recovers 6 ∷ []

run-IsSound_example : IsSound (run before empty_db)
run-IsSound_example = run-IsSound before

abbrev or_else : JobModel → Option JobModel → JobModel
or_else default none = default
or_else default (some j) = j

-- The job after it was cancelled in the queue.
abbrev ended_job : JobModel
ended_job = or_else (new_job 2 "job-1" request) (find_job "job-1" (run before empty_db))

ended_found : find_job "job-1" (run before empty_db) ≡ some ended_job
unfolding run create_audit insert_audit create_job require_audit insert_job reopen_completed
    audit_job_accepting new_job request_cancel require_job transition_job require_job_transition
    refresh_audit add_event moved statuses Table.find Table.replace desired_status
ended_found = refl

ended_status : terminal ended_job.status ≡ true
unfolding run create_audit insert_audit create_job require_audit insert_job reopen_completed
    audit_job_accepting new_job request_cancel require_job transition_job require_job_transition
    refresh_audit add_event moved statuses Table.find Table.replace desired_status
ended_status = refl

run-Later_example : Later "job-1" ended_job (run after (run before empty_db))
run-Later_example = run-Later before after "job-1" ended_job ended_found

run-terminal_example :
    (j : JobModel) × (find_job "job-1" (run after (run before empty_db)) ≡ some j)
    × (j.status ≡ ended_job.status)
run-terminal_example = run-terminal before after "job-1" ended_job ended_found ended_status
