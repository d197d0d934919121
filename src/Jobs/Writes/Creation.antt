-- ===== src/Jobs/Writes/Creation.antt =====
-- The transactions that add audits and jobs (jobs/service.py, backend/recovery.py) as sequences of writes.
use wirescope.Prelude.{
  ℕ, ap, subst, String, ◌≡◌, refl, sym, ◌∙◌, ◌⊎◌, inl, inr, true, Option, some, arith, is_some,
}
use wirescope.Result.{ok, >>=-eq-ok, snd_eq}
use wirescope.Json.{Dict}
use wirescope.Jobs.Models.{JobStatus, AuditStatus}
use wirescope.Jobs.State.{audit_transitions, require_audit_transition}
use wirescope.Jobs.Steps.{add_event, require_audit}
use wirescope.Jobs.Service.{
  NewJob, new_job, create_audit, create_job, insert_job, insert_audit, reopen_completed,
  set_environment_reference,
}
use wirescope.Jobs.Records.{JobRecord, AuditRecord}
use wirescope.Jobs.Recovery.{retry, replacement, reopen}
use wirescope.Jobs.Writes.{Write, Writes, job_added, audit_added, elsewhere, then}
use wirescope.Jobs.Writes.Transactions.{one, put_audit-Write}
use wirescope.Jobs.Coherence.Claim.{require_audit-inv}
use wirescope.Jobs.Coherence.Create.{
  create_job-Creating, insert_job-inv, insert_audit-inv, accepting-cases, reopen_completed-same,
  reopen_completed-running,
}
use wirescope.Jobs.Coherence.Retry.{retry-Retrying, reopen-running}
use wirescope.Persistence.{AuditModel, JobModel, Db, find_audit, put_audit, audit_key}
use wirescope.Table

pub create_audit-Writes :
    (now : ℕ) (id profile : String) (interface : Option String) (scope : Dict)
    (actor : Option String) (db : Db) (r : AuditRecord) (db' : Db)
    → create_audit now id profile interface scope actor db ≡ ok (r, db')
    → Writes db db'
unfolding create_audit
create_audit-Writes now id profile interface scope actor db r db' c =
    let (added, i, e) = >>=-eq-ok (insert_audit _ db) _ c in
    let (absent, is) = insert_audit-inv _ db added i in
    subst (Writes db) (snd_eq e)
      (one (audit_added _ absent refl (ap (λ d. d.jobs) is) (ap (λ d. d.audits) is)))

pub set_environment_reference-Writes :
    (audit_id artifact_id : String) (db : Db) (r : AuditRecord) (db' : Db)
    → set_environment_reference audit_id artifact_id db ≡ ok (r, db')
    → Writes db db'
unfolding set_environment_reference
set_environment_reference-Writes k artifact_id db r db' c =
    let (a, fa, e) = >>=-eq-ok (require_audit db k) _ c in
    one (
      put_audit-Write k (record a { environment_snapshot_reference = some artifact_id }) a db db'
        (require_audit-inv db k a fa) refl (inl refl) (sym (snd_eq e)))

insert_job-Write :
    (j : JobModel) (db db' : Db)
    → j.status ≡ JobStatus.queued
    → is_some (find_audit j.audit_id db) ≡ true
    → insert_job j db ≡ ok db'
    → Write db db'
insert_job-Write j db db' queued owned i =
    let (absent, e) = insert_job-inv j db db' i in
    job_added j absent owned queued (ap (λ d. d.jobs) e) (ap (λ d. d.audits) e)

-- The audit of a new job is there after it was reopened.
module _ (a : AuditModel) (k : String) (db : Db) (found : find_audit k db ≡ some a) where
  still_there : (b : AuditModel) → b.id ≡ a.id → is_some (find_audit k (put_audit b db)) ≡ true
  still_there b id =
      rw
        (Table.find-replace_self audit_key b a k db.audits found
          (id ∙ Table.key-find audit_key k db.audits a found))
        refl

  reopen_completed-Write :
      (opened : Db)
      (s : (a.status ≡ AuditStatus.completed)
        ⊎ ((a.status ≡ AuditStatus.created) ⊎ (a.status ≡ AuditStatus.running)))
      → reopen_completed a db ≡ ok opened
      → Write db opened × (is_some (find_audit k opened) ≡ true)
  unfolding audit_transitions
  reopen_completed-Write opened (inl e) h =
      let (b, id, runs, is) = reopen_completed-running a db opened e h in
      (
        put_audit-Write k b a db opened found id (inr (ground (arith, e, runs))) (sym is),
        subst (λ d. is_some (find_audit k d) ≡ true) is (still_there b id),
      )
  reopen_completed-Write opened (inr live) h =
      let is = reopen_completed-same a db opened live h in
      (
        elsewhere (ap (λ d. d.jobs) (sym is)) (ap (λ d. d.audits) (sym is)),
        subst (λ d. is_some (find_audit k d) ≡ true) is (ap is_some found),
      )

pub create_job-Writes :
    (now : ℕ) (id : String) (request : NewJob) (db : Db) (r : JobRecord) (db' : Db)
    → create_job now id request db ≡ ok (r, db')
    → Writes db db'
unfolding new_job add_event
create_job-Writes now id request db r db' c =
    let t = create_job-Creating now id request db r db' c in
    let (w, owned) =
      reopen_completed-Write t.audit request.audit_id db t.audit_found t.opened
        (accepting-cases t.audit.status t.accepted) t.reopened in
    then
      (then (one w)
        (insert_job-Write (new_job now id request) t.opened t.added_db refl owned t.inserted))
      (elsewhere (ap (λ d. d.jobs) (sym t.noted)) (ap (λ d. d.audits) (sym t.noted)))

reopen-allowed :
    (now : ℕ) (a b : AuditModel)
    → reopen now a ≡ ok b
    → (a.status ≡ b.status) ⊎ (audit_transitions a.status b.status ≡ true)
unfolding reopen require_audit_transition
reopen-allowed now a b h = ground arith

pub retry-Writes :
    (now : ℕ) (id job_id : String) (actor : Option String) (db : Db) (r : JobRecord) (db' : Db)
    → retry now id job_id actor db ≡ ok (r, db')
    → Writes db db'
unfolding replacement
retry-Writes now id job_id actor db r db' c =
    let (source, fs, retryable, alone, t) = retry-Retrying now id job_id actor db r db' c in
    let (oid, runs) = reopen-running now t.audit t.opened t.reopened in
    let opened_db = put_audit t.new db in
    let opened : Write db opened_db =
      put_audit-Write source.audit_id t.new t.audit db opened_db t.audit_found (t.new_id ∙ oid)
        (subst (λ s. (t.audit.status ≡ s) ⊎ (audit_transitions t.audit.status s ≡ true))
          (sym t.new_status) (reopen-allowed now t.audit t.opened t.reopened))
        refl in
    then
      (then (one opened) (
        insert_job-Write (replacement now id source) opened_db t.added_db refl
          (still_there t.audit source.audit_id db t.audit_found t.new (t.new_id ∙ oid)) t.inserted))
      (elsewhere t.jobs t.audits)
