-- ===== src/Jobs/Listings.antt =====
-- The listings of JobService (jobs/service.py). How a query orders its rows is an argument, since SQL
-- leaves the order of rows with equal keys open, for each query anew.
pub mod Cuts
pub mod Pages
use wirescope.Prelude.{
  ℕ, String, Bool, true, ◌&&◌, Option, none, some, List, map, str_eq, keep, take, drop, length,
}
use wirescope.Result.{Result, ok, ◌>>=◌}
use wirescope.Jobs.Models.{AuditStatus, JobStatus, status_value}
use wirescope.Jobs.Records.{
  AuditRecord, JobRecord, JobEventRecord, audit_record, job_record, event_record, detached,
}
use wirescope.Jobs.Steps.{audit_status_eq, require_job}
use wirescope.Persistence.{AuditModel, JobModel, JobEventModel, Db}

pub record Page (A : Type 0) : Type 0 where
  pub items : List A
  pub limit : ℕ
  pub offset : ℕ
  pub total : ℕ

-- The rows of a query under LIMIT and OFFSET, and their number without.
abbrev pub page : {A B : Type 0} → (A → B) → ℕ → ℕ → List A → Page B
page record_of limit offset rows = record {
  items = map record_of (take limit (drop offset rows));
  limit = limit;
  offset = offset;
  total = length rows;
}

-- A filter that is not given, or a column that equals it.
abbrev pub equals : Option String → String → Bool
equals none column = true
equals (some wanted) column = str_eq column wanted

abbrev pub has_status : Option JobStatus → JobModel → Bool
has_status none j = true
has_status (some s) j = str_eq (status_value j.status) (status_value s)

abbrev pub audit_has_status : Option AuditStatus → AuditModel → Bool
audit_has_status none a = true
audit_has_status (some s) a = audit_status_eq a.status s

-- `ORDER BY key.desc()` or `ORDER BY key`
pub data Direction : Type 0 where
  descending ascending : Direction

-- A database's way to order rows by a column.
abbrev pub OrderBy : Type 0 → Type 0
OrderBy A = Direction → (A → ℕ) → List A → List A

abbrev pub job_matches : Option JobStatus → Option String → Option String → JobModel → Bool
job_matches status audit_id job_type j =
    has_status status j && (equals audit_id j.audit_id && equals job_type j.type)

module _ (limit offset : ℕ) where
  unfoldable pub list_audits : OrderBy AuditModel → Option AuditStatus → Db → Page AuditRecord
  list_audits order_by status db =
      page audit_record limit offset
        (order_by descending (λ a. a.created_at) (keep (audit_has_status status) db.audits))

  unfoldable pub list_jobs :
      OrderBy JobModel → Option JobStatus → Option String → Option String → Db → Page JobRecord
  list_jobs order_by status audit_id job_type db = page (job_record detached) limit offset (
      order_by descending (λ j. j.created_at) (keep (job_matches status audit_id job_type) db.jobs))

  unfoldable pub list_events : OrderBy JobEventModel → String → Db → Result (Page JobEventRecord)
  list_events order_by job_id db = do
    job ← require_job db job_id
    ok (
        page event_record limit offset
          (order_by ascending (λ e. e.id) (keep (λ e. str_eq e.job_id job_id) db.events)))
