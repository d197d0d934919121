-- ===== src/Jobs/Listings/Pages.antt =====
-- What a page of jobs shows (`list_jobs`, jobs/service.py).
use wirescope.Prelude.{
  if◌then◌else◌, ℕ, ◌≤◌, ◌≡◌, ◌⊎◌, ◌↔◌, String, Option, none, some, List, map, length, str_eq, All,
  ◌++◌,
}
use wirescope.Prelude.In.{In}
use wirescope.Jobs.Listings.Cuts.{Ordered}
use wirescope.Jobs.Listings.{Direction, descending, OrderBy}
use wirescope.Jobs.Models.{JobStatus}
use wirescope.Jobs.Records.{JobRecord, job_record, detached}
use wirescope.Table.Keys.{Distinct}
use wirescope.Persistence.{job_key, JobModel}

-- What ORDER BY promises: the rows there were, each once, in order.
pub record Orders {A : Type 0} (order_by : OrderBy A) : Type 0 where
  pub same_rows :
      (d : Direction) (key : A → ℕ) (rows : List A) (a : A) → In a (order_by d key rows) ↔ In a rows
  pub distinct :
      (id : A → String) (d : Direction) (key : A → ℕ) (rows : List A)
      → Distinct id rows
      → Distinct id (order_by d key rows)
  pub ordered : (d : Direction) (key : A → ℕ) (rows : List A) → Ordered d key (order_by d key rows)

-- A filter that is not given, or that the column passes.
abbrev pub Given : {A : Type 0} → Option A → A → Type 0
Given none a = Unit
Given (some wanted) a = a ≡ wanted

abbrev pub Wanted : Option JobStatus → Option String → Option String → JobModel → Type 0
Wanted status audit_id job_type j =
    Given status j.status × Given audit_id j.audit_id × Given job_type j.type

-- A page, and the rows that come before it. Jobs that pass the filters and are in neither are no newer
-- than those on the page, and there are some only if it is full.
pub record IsPage (status : Option JobStatus) (audit_id job_type : Option String) (limit offset : ℕ)
    (jobs : List JobModel) (shown : List JobRecord) : Type 0 where
  rows : List JobModel
  earlier : List JobModel
  items : shown ≡ map (job_record detached) rows
  wanted : All (λ j. In j jobs × Wanted status audit_id job_type j) (earlier ++ rows)
  newest_first : Ordered descending (λ j. j.created_at) (earlier ++ rows)
  at_most : length rows ≤ limit
  skipped : length earlier ≤ offset
  once : Distinct job_key (earlier ++ rows)
  complete :
      (j : JobModel)
      → In j jobs
      → Wanted status audit_id job_type j
      → In j earlier
        ⊎ In j rows
        ⊎ ((length rows ≡ limit) × All (λ k. j.created_at ≤ k.created_at) rows)

abbrev status_of : String → Option JobStatus
status_of v =
    if str_eq v "queued"
    then some JobStatus.queued
    else if str_eq v "running"
    then some JobStatus.running
    else if str_eq v "completed"
    then some JobStatus.completed
    else if str_eq v "failed"
    then some JobStatus.failed
    else if str_eq v "cancelled"
    then some JobStatus.cancelled
    else some JobStatus.interrupted
