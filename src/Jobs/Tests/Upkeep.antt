-- ===== src/Jobs/Tests/Upkeep.antt =====
-- Listings and the pruning of events at small inputs.
use wirescope.Prelude.{
  Bool, leb, String, false, eq_iff, ℕ, ◌+◌, ◌≡◌, refl, none, some, [], ◌∷◌, length, arith,
}
use wirescope.Prelude.Sort.{sort_by}
use wirescope.Jobs.Listings.{Direction, descending, ascending, OrderBy, list_jobs}
use wirescope.Jobs.Maintenance.{
  events_of, prune_terminal_job_events, prune_terminal_job_events-live,
}
use wirescope.Jobs.Models.{JobStatus, terminal}
use wirescope.Jobs.Tests.{busy_db, job_of, running_job}
use wirescope.Persistence.{Db, JobEventModel, JobModel, find_job}
use wirescope.Table

-- A stable sort orders rows.
abbrev comes : Direction → (JobModel → ℕ) → JobModel → JobModel → Bool
comes descending key a b = leb (key b) (key a)
comes ascending key a b = leb (key a) (key b)

abbrev stable : OrderBy JobModel
stable d key = sort_by (comes d key)

first_page : (list_jobs 1 0 stable none (some "audit-1") none busy_db).total ≡ 2
unfolding list_jobs sort_by
first_page = refl

abbrev event_of : ℕ → String → JobEventModel
event_of id job_id = record {
  id = id;
  audit_id = "audit-1";
  job_id = job_id;
  created_at = 3;
  event_type = "job_progress";
  stage = none;
  progress = none;
  message = "";
  details = [];
}

abbrev logged_db : Db
logged_db = record busy_db {
  jobs = running_job ∷ record (job_of "job-3" JobStatus.completed 1) { finished_at = some 5 } ∷ [];
  events = event_of 1 "job-1" ∷ event_of 2 "job-3" ∷ [];
}

found_running : find_job "job-1" logged_db ≡ some running_job
unfolding Table.find
found_running = refl

running_lives : terminal running_job.status ≡ false
unfolding terminal
running_lives = refl

one_gone : (prune_terminal_job_events 10 logged_db).0 ≡ 1
unfolding prune_terminal_job_events terminal
one_gone = refl

prune_terminal_job_events-live_example :
    (events_of "job-1" (prune_terminal_job_events 10 logged_db).1.events
      ≡ events_of "job-1" logged_db.events)
    × ((prune_terminal_job_events 10 logged_db).0
          + length (prune_terminal_job_events 10 logged_db).1.events
        ≡ 2)
prune_terminal_job_events-live_example =
    prune_terminal_job_events-live 10 logged_db "job-1" running_job
      (((λ e. ground (arith, eq_iff "job-1" "job-3")), tt), (tt, tt)) found_running running_lives
