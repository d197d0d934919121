-- ===== src/Jobs/Coherence/Create.antt =====
-- New audits and new jobs (`create_audit`, `create_job` of jobs/service.py, `retry` of
-- backend/recovery.py), and the agreement of audits with their jobs.
use mathlib.Core.List.{append-nil}
use wirescope.Prelude.{
  ℕ, ap, subst, String, ◌≡◌, refl, sym, ◌∙◌, ◌⊎◌, inl, inr, true, Option, none, some, List, [], ◌∷◌,
  ◌++◌, arith, All, eq_iff, text-cases, is_some, any-append,
}
use wirescope.Result.{snd_eq, ok, guard, >>=-eq-ok, ok-injective, guard-eq-ok}
use wirescope.Json.{Dict}
use wirescope.Jobs.Models.{AuditStatus, JobStatus}
use wirescope.Jobs.State.{audit_job_accepting, audit_transitions}
use wirescope.Jobs.Statuses.{statuses-append}
use wirescope.Jobs.Steps.{statuses, is_active, require_audit, add_event}
use wirescope.Jobs.Service.{
  NewJob, new_job, insert_job, reopen_completed, create_job, create_audit, insert_audit,
}
use wirescope.Jobs.Records.{JobRecord, AuditRecord}
use wirescope.Jobs.Coherence.{IsCoherent, IsCoherentBut, agrees, is_unqueued}
use wirescope.Jobs.Coherence.Claim.{close-IsCoherent, closed-IsCoherent, require_audit-inv}
use wirescope.Jobs.Coherence.Queue.{noted-IsCoherent}
use wirescope.Persistence.{AuditModel, JobModel, Db, find_audit, find_job, put_audit, audit_key}
use wirescope.Table

-- A queued job more keeps an audit that has not ended in agreement.
agrees-queued :
    (s : AuditStatus) (ss : List JobStatus)
    → (s ≡ AuditStatus.created) ⊎ (s ≡ AuditStatus.running)
    → (s ≡ AuditStatus.created → agrees s ss ≡ true)
    → agrees s (ss ++ JobStatus.queued ∷ []) ≡ true
agrees-queued s ss (inl e) h =
    ground (arith, h e, any-append is_unqueued ss (JobStatus.queued ∷ []))
agrees-queued s ss (inr e) h = ground (arith, any-append is_active ss (JobStatus.queued ∷ []))

pub insert_job-inv :
    (j : JobModel) (db db' : Db)
    → insert_job j db ≡ ok db'
    → (find_job j.id db ≡ none) × (db' ≡ record db { jobs = db.jobs ++ j ∷ [] })
unfolding insert_job
insert_job-inv j db db' h = ground arith

module _ (job : JobModel) (queued : job.status ≡ JobStatus.queued) (db : Db)
    (h : IsCoherent db) where
  -- The table with one more job.
  abbrev pub added : Db
  added = record db { jobs = db.jobs ++ job ∷ [] }

  pub added-IsCoherentBut : IsCoherentBut job.audit_id added
  added-IsCoherentBut k a n f = ground (
    arith,
    statuses-append k job db.jobs,
    append-nil (statuses k db.jobs),
    eq_iff job.audit_id k,
    h k a f,
  )

  added_statuses :
      statuses job.audit_id added.jobs ≡ statuses job.audit_id db.jobs ++ JobStatus.queued ∷ []
  added_statuses =
      ground (arith, statuses-append job.audit_id job db.jobs, eq_iff job.audit_id job.audit_id)

  -- The job's audit is created or runs.
  added-IsCoherent :
      (a : AuditModel)
      → find_audit job.audit_id db ≡ some a
      → (a.status ≡ AuditStatus.created) ⊎ (a.status ≡ AuditStatus.running)
      → IsCoherent added
  added-IsCoherent a found live =
      closed-IsCoherent job.audit_id a added found added-IsCoherentBut
        (rw added_statuses (agrees-queued a.status _ live (λ _. h job.audit_id a found)))

  -- The job's audit is put back to running.
  pub reopened-IsCoherent :
      (new : AuditModel)
      → new.id ≡ job.audit_id
      → new.status ≡ AuditStatus.running
      → IsCoherent (put_audit new added)
  reopened-IsCoherent new id runs =
      close-IsCoherent job.audit_id new added id added-IsCoherentBut
        (rw added_statuses (agrees-queued new.status _ (inr runs) (λ e. cc)))

pub accepting-cases :
    (s : AuditStatus)
    → audit_job_accepting s ≡ true
    → (s ≡ AuditStatus.completed) ⊎ ((s ≡ AuditStatus.created) ⊎ (s ≡ AuditStatus.running))
unfolding audit_job_accepting
accepting-cases s h = ground arith

pub reopen_completed-same :
    (a : AuditModel) (db db' : Db)
    → (a.status ≡ AuditStatus.created) ⊎ (a.status ≡ AuditStatus.running)
    → reopen_completed a db ≡ ok db'
    → db ≡ db'
unfolding reopen_completed
reopen_completed-same a db db' (inl e) h = ok-injective (rw e at h)
reopen_completed-same a db db' (inr e) h = ok-injective (rw e at h)

pub reopen_completed-running :
    (a : AuditModel) (db db' : Db)
    → a.status ≡ AuditStatus.completed
    → reopen_completed a db ≡ ok db'
    → (b : AuditModel) × (b.id ≡ a.id) × (b.status ≡ AuditStatus.running) × (put_audit b db ≡ db')
unfolding reopen_completed audit_transitions
reopen_completed-running a db db' e h = (
  record a { status = AuditStatus.running; finished_at = none },
  refl,
  refl,
  ok-injective (rw e at h),
)

-- What `create_job` did, step by step.
pub record Creating (now : ℕ) (job : JobModel) (db db' : Db) : Type 0 where
  pub audit : AuditModel
  pub audit_found : find_audit job.audit_id db ≡ some audit
  pub accepted : audit_job_accepting audit.status ≡ true
  pub opened : Db
  pub reopened : reopen_completed audit db ≡ ok opened
  pub added_db : Db
  pub inserted : insert_job job opened ≡ ok added_db
  pub noted : add_event now job "job_queued" "Job queued" added_db ≡ db'

pub create_job-Creating :
    (now : ℕ) (id : String) (request : NewJob) (db : Db) (r : JobRecord) (db' : Db)
    → create_job now id request db ≡ ok (r, db')
    → Creating now (new_job now id request) db db'
unfolding create_job new_job
create_job-Creating now id request db r db' c =
    let (a, fa, c₁) = >>=-eq-ok (require_audit db request.audit_id) _ c in
    let (d, accepted, c₂) = >>=-eq-ok (guard (audit_job_accepting a.status) _) _ c₁ in
    let (opened, o, c₃) = >>=-eq-ok (reopen_completed a db) _ c₂ in
    let (added_db, i, e) = >>=-eq-ok (insert_job (new_job now id request) opened) _ c₃ in
    record {
      audit = a;
      audit_found = require_audit-inv db request.audit_id a fa;
      accepted = guard-eq-ok (audit_job_accepting a.status) _ d accepted;
      opened = opened;
      reopened = o;
      added_db = added_db;
      inserted = i;
      noted = snd_eq e;
    }

Creating-IsCoherent :
    (now : ℕ) (job : JobModel) (db db' : Db)
    → job.status ≡ JobStatus.queued
    → IsCoherent db
    → Creating now job db db'
    → IsCoherent db'
Creating-IsCoherent now job db db' queued h c = subst IsCoherent c.noted (
    noted-IsCoherent now job "job_queued" "Job queued" c.added_db (
      subst IsCoherent (sym (insert_job-inv job c.opened c.added_db c.inserted).1)
        (elim (accepting-cases c.audit.status c.accepted) [
          | inl done ↦
              let (b, id, runs, e) = reopen_completed-running c.audit db c.opened done c.reopened in
              subst (λ o. IsCoherent (record o { jobs = o.jobs ++ job ∷ [] })) e
                (reopened-IsCoherent job queued db h b
                  (id ∙ Table.key-find audit_key job.audit_id db.audits c.audit c.audit_found) runs)
          | inr live ↦
              subst (λ o. IsCoherent (record o { jobs = o.jobs ++ job ∷ [] }))
                (reopen_completed-same c.audit db c.opened live c.reopened)
                (added-IsCoherent job queued db h c.audit c.audit_found live)
        ])))

-- Where every audit agrees with its jobs, a call of create_job that returns leaves them in
-- agreement, also where it reopens a completed audit.
pub create_job-IsCoherent :
    (now : ℕ) (id : String) (request : NewJob) (db : Db) (r : JobRecord) (db' : Db)
    → IsCoherent db
    → create_job now id request db ≡ ok (r, db')
    → IsCoherent db'
unfolding new_job
create_job-IsCoherent now id request db r db' h c =
    Creating-IsCoherent now (new_job now id request) db db' refl h
      (create_job-Creating now id request db r db' c)

-- The audit of every job is there (the foreign key of `jobs.audit_id`).
abbrev pub IsOwned : Db → Type 0
IsOwned db = All (λ j. is_some (find_audit j.audit_id db) ≡ true) db.jobs

statuses_of_absent :
    (k : String) (db : Db) (js : List JobModel)
    → find_audit k db ≡ none
    → All (λ j. is_some (find_audit j.audit_id db) ≡ true) js
    → statuses k js ≡ []
unfolding statuses
statuses_of_absent k db [] absent h = refl
statuses_of_absent k db (j ∷ js) absent h = elim (text-cases j.audit_id k) [
  | inl e ↦ ground (arith, h.0, ap (λ i. is_some (find_audit i db)) e)
  | inr n ↦ ground (arith, eq_iff j.audit_id k, statuses_of_absent k db js absent h.1)
]

pub insert_audit-inv :
    (a : AuditModel) (db db' : Db)
    → insert_audit a db ≡ ok db'
    → (find_audit a.id db ≡ none) × (db' ≡ record db { audits = db.audits ++ a ∷ [] })
unfolding insert_audit
insert_audit-inv a db db' h = ground arith

insert_audit-IsCoherent :
    (a : AuditModel) (db db' : Db)
    → a.status ≡ AuditStatus.created
    → IsOwned db
    → IsCoherent db
    → insert_audit a db ≡ ok db'
    → IsCoherent db'
insert_audit-IsCoherent a db db' new owned h i =
    let (absent, e) = insert_audit-inv a db db' i in
    subst IsCoherent (sym e) λ k b f. elim (Table.find-append-inv audit_key k db.audits a b f) [
      | inl old ↦ h k b old
      | inr (none_there, key, is) ↦ ground (arith, statuses_of_absent k db db.jobs none_there owned)
    ]

-- Creating an audit.
pub create_audit-IsCoherent :
    (now : ℕ) (id profile : String) (interface : Option String) (scope : Dict)
    (actor : Option String) (db : Db) (r : AuditRecord) (db' : Db)
    → IsOwned db
    → IsCoherent db
    → create_audit now id profile interface scope actor db ≡ ok (r, db')
    → IsCoherent db'
unfolding create_audit
create_audit-IsCoherent now id profile interface scope actor db r db' owned h c =
    let (added_db, i, e) = >>=-eq-ok (insert_audit _ db) _ c in
    subst IsCoherent (snd_eq e) (insert_audit-IsCoherent _ db added_db refl owned h i)
