-- ===== src/Jobs/Coherence/Moves.antt =====
-- The writes between which a transaction of jobs/service.py refreshes an audit: a job moves, a lock
-- goes, a summary is merged.
use Prim.Native.String.{◌++◌ as append}
use wirescope.Prelude.{
  ℕ, ap, String, ◌≡◌, ◌≢◌, refl, sym, ◌∙◌, ◌⊎◌, inl, inr, true, false, Option, none, some, List, [],
  ◌∷◌, ◌++◌, arith, Option-cases,
}
use wirescope.Result.{ok, ok-injective}
use wirescope.Json.{Dict, update}
use wirescope.Jobs.Models.{JobStatus, JobError, status_value}
use wirescope.Jobs.State.{job_transitions, require_job_transition}
use wirescope.Jobs.Steps.{statuses, moved, transition_job, is_nil, add_event, require_audit}
use wirescope.Jobs.Statuses.{statuses-Split, statuses-replace_ne, statuses-replace_same}
use wirescope.Jobs.Execution.{merge_summary}
use wirescope.Jobs.Coherence.{IsCoherent, IsCoherentBut, agrees}
use wirescope.Persistence.{
  AuditModel, JobModel, Db, find_audit, find_job, audit_key, job_key, put_audit, put_job,
}
use wirescope.Table

module _ (now : ℕ) (job : JobModel) (desired : JobStatus) (stage : String) (progress : ℕ)
    (message : String) (error : Option JobError) where
  -- What a move leaves as it was.
  pub moved-keeps :
      let j = moved now job desired stage progress message error in
      (j.id ≡ job.id)
      × (j.audit_id ≡ job.audit_id)
      × (j.status ≡ desired)
      × (j.progress ≡ progress)
      × (j.resource_key ≡ job.resource_key)
      × (j.resource_group ≡ job.resource_group)
  unfolding moved
  moved-keeps =
      elim error
        as (λ e.
          let j = moved now job desired stage progress message e in
          (j.id ≡ job.id)
          × (j.audit_id ≡ job.audit_id)
          × (j.status ≡ desired)
          × (j.progress ≡ progress)
          × (j.resource_key ≡ job.resource_key)
          × (j.resource_group ≡ job.resource_group)) [
            | none ↦ (refl, refl, refl, refl, refl, refl)
            | some e ↦ (refl, refl, refl, refl, refl, refl)
          ]

  -- A transition that is made was allowed, and writes the moved row and one event.
  pub transition_job-inv :
      (db : Db) (j : JobModel) (db' : Db)
      → transition_job now job desired stage progress message error db ≡ ok (j, db')
      → (job_transitions job.status desired ≡ true)
        × (j ≡ moved now job desired stage progress message error)
        × (db' ≡ add_event now j (append "job_" (status_value desired)) message (put_job j db))
  unfolding transition_job require_job_transition
  transition_job-inv db j db' h = ground arith

pub add_event-tables :
    (now : ℕ) (job : JobModel) (type message : String) (db : Db)
    → let db' = add_event now job type message db in
      (db'.jobs ≡ db.jobs)
      × (db'.audits ≡ db.audits)
      × (db'.locks ≡ db.locks)
      × (db'.workers ≡ db.workers)
unfolding add_event
add_event-tables now job type message db = (refl, refl, refl, refl)

-- `job` is the row `old` as a transaction changed it before the move.
pub record IsRowOf (k : String) (job old : JobModel) (db : Db) : Type 0 where
  pub found : find_job k db ≡ some old
  pub id : job.id ≡ old.id
  pub audit_id : job.audit_id ≡ old.audit_id

-- What a transition that was made did.
pub record Transition (k : String) (job old : JobModel) (desired : JobStatus) (progress : ℕ)
    (db : Db) (j : JobModel) (db' : Db) : Type 0 where
  pub allowed : job_transitions job.status desired ≡ true
  pub row : IsRowOf k j old db
  pub status : j.status ≡ desired
  pub progress_is : j.progress ≡ progress
  pub resource_key : j.resource_key ≡ job.resource_key
  pub resource_group : j.resource_group ≡ job.resource_group
  pub jobs : db'.jobs ≡ Table.replace job_key j db.jobs
  pub audits : db'.audits ≡ db.audits
  pub locks : db'.locks ≡ db.locks
  pub workers : db'.workers ≡ db.workers

pub transition_job-Transition :
    (now : ℕ) (k : String) (job old : JobModel) (desired : JobStatus) (stage : String)
    (progress : ℕ) (message : String) (error : Option JobError) (db : Db) (j : JobModel) (db' : Db)
    → IsRowOf k job old db
    → transition_job now job desired stage progress message error db ≡ ok (j, db')
    → Transition k job old desired progress db j db'
transition_job-Transition now k job old desired stage progress message error db j db' row t =
    let (allowed, is, after) =
      transition_job-inv now job desired stage progress message error db j db' t in
    let (id, audit_id, status, progress_is, key, group) =
      moved-keeps now job desired stage progress message error in
    let (jobs, audits, locks, workers) =
      add_event-tables now j (append "job_" (status_value desired)) message (put_job j db) in
    record {
      allowed = allowed;
      row = record {
        found = row.found;
        id = ap job_key is ∙ id ∙ row.id;
        audit_id = ap (λ r. r.audit_id) is ∙ audit_id ∙ row.audit_id;
      };
      status = ap (λ r. r.status) is ∙ status;
      progress_is = ap (λ r. r.progress) is ∙ progress_is;
      resource_key = ap (λ r. r.resource_key) is ∙ key;
      resource_group = ap (λ r. r.resource_group) is ∙ group;
      jobs = ap (λ d. d.jobs) after ∙ jobs;
      audits = ap (λ d. d.audits) after ∙ audits;
      locks = ap (λ d. d.locks) after ∙ locks;
      workers = ap (λ d. d.workers) after ∙ workers;
    }

pub is_nil-middle : (xs ys : List JobStatus) (s : JobStatus) → is_nil (xs ++ s ∷ ys) ≡ false
is_nil-middle [] ys s = refl
is_nil-middle (x ∷ xs) ys s = refl

module _ (k : String) (new old : JobModel) (db : Db) (row : IsRowOf k new old db) where
  pub find-row : find_job new.id db ≡ some old
  find-row = rw (row.id ∙ Table.key-find job_key k db.jobs old row.found) row.found

  pub put_job-IsCoherentBut : IsCoherent db → IsCoherentBut old.audit_id (put_job new db)
  put_job-IsCoherentBut h j a n f =
      rw (statuses-replace_ne j new old row.audit_id db.jobs find-row n) (h j a f)

  pub put_job-some : is_nil (statuses old.audit_id (Table.replace job_key new db.jobs)) ≡ false
  put_job-some =
      let s = statuses-Split old.audit_id new old row.audit_id db.jobs find-row refl in
      rw s.is (is_nil-middle s.before s.after new.status)

  pub put_job_same-IsCoherent :
      new.status ≡ old.status → IsCoherent db → IsCoherent (put_job new db)
  put_job_same-IsCoherent e h j a f =
      rw (statuses-replace_same j new old row.audit_id db.jobs find-row e) (h j a f)

-- An audit row that keeps its identifier and its status keeps the agreement, of the audits that count.
put_audit-agrees :
    (Counts : String → Type 0) (k : String) (new old : AuditModel) (db : Db)
    → find_audit k db ≡ some old
    → new.id ≡ old.id
    → new.status ≡ old.status
    → ((j : String) (a : AuditModel)
        → Counts j
        → find_audit j db ≡ some a
        → agrees a.status (statuses j db.jobs) ≡ true)
    → (j : String) (a : AuditModel) → Counts j
    → find_audit j (put_audit new db) ≡ some a
    → agrees a.status (statuses j db.jobs) ≡ true
put_audit-agrees Counts k new old db found same keeps h j a n f =
    elim (Table.find-replace-inv audit_key new a j db.audits f) [
      | inl (key, e, (b, g)) ↦
          let hb = h j b n g in
          let eq : k ≡ j = sym (Table.key-find audit_key k db.audits old found) ∙ sym same ∙ key in
          let eb : some old ≡ some b = sym found ∙ ap (λ i. find_audit i db) eq ∙ g in ground arith
      | inr (differs, g) ↦ h j a n g
    ]

pub put_audit-IsCoherentBut :
    (but k : String) (new old : AuditModel) (db : Db)
    → find_audit k db ≡ some old
    → new.id ≡ old.id
    → new.status ≡ old.status
    → IsCoherentBut but db
    → IsCoherentBut but (put_audit new db)
put_audit-IsCoherentBut but k new old db found same keeps h j a n f =
    put_audit-agrees (λ i. but ≢ i) k new old db found same keeps h j a n f

pub put_audit-IsCoherent :
    (k : String) (new old : AuditModel) (db : Db)
    → find_audit k db ≡ some old
    → new.id ≡ old.id
    → new.status ≡ old.status
    → IsCoherent db
    → IsCoherent (put_audit new db)
put_audit-IsCoherent k new old db found same keeps h j a f =
    put_audit-agrees (λ i. Unit) k new old db found same keeps (λ i b u. h i b) j a tt f

pub merge_summary-inv :
    (k : String) (summary : Option Dict) (db db' : Db)
    → merge_summary k summary db ≡ ok db'
    → (db' ≡ db)
      ⊎ ((a : AuditModel) × (b : AuditModel) × (find_audit k db ≡ some a)
          × (b.id ≡ a.id)
          × (b.status ≡ a.status)
          × (db' ≡ put_audit b db))
unfolding merge_summary require_audit
merge_summary-inv k none db db' h = inl (sym (ok-injective h))
merge_summary-inv k (some s) db db' h = elim (Option-cases (find_audit k db)) [
  | inl e ↦ ground arith
  | inr (a, e) ↦ inr (a, record a { summary = update a.summary s }, e, refl, refl, ground arith)
]

pub merge_summary-IsCoherentBut :
    (but k : String) (summary : Option Dict) (db db' : Db)
    → merge_summary k summary db ≡ ok db'
    → IsCoherentBut but db
    → IsCoherentBut but db' × (db'.jobs ≡ db.jobs) × (db'.locks ≡ db.locks)
merge_summary-IsCoherentBut but k s db db' h others = elim (merge_summary-inv k s db db' h) [
  | inl e ↦ rw e (others, refl, refl)
  | inr (a, b, found, id, status, e) ↦
      rw e (put_audit-IsCoherentBut but k b a db found id status others, refl, refl)
]
