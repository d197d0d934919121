-- ===== src/Jobs/Coherence/Retry.antt =====
-- A retry (`RecoveryService.retry`, backend/recovery.py), and the agreement of audits with their jobs.
use wirescope.Prelude.{
  ℕ, ap, subst, String, ◌≡◌, refl, sym, ◌∙◌, Bool, true, false, not, Option, some, arith, any,
}
use wirescope.Result.{snd_eq, ok, guard, >>=-eq-ok, guard-eq-ok}
use wirescope.Jobs.Models.{AuditStatus}
use wirescope.Jobs.State.{require_audit_transition}
use wirescope.Jobs.Steps.{require_audit, require_job, add_event_with, or_now}
use wirescope.Jobs.Service.{insert_job}
use wirescope.Jobs.Recovery.{
  retry, reopen, replacement, retryable, is_equivalent, needs_credentials,
}
use wirescope.Jobs.Records.{JobRecord}
use wirescope.Jobs.Coherence.{IsCoherent}
use wirescope.Jobs.Coherence.Claim.{require_audit-inv}
use wirescope.Jobs.Coherence.Queue.{same_tables-IsCoherent}
use wirescope.Persistence.{AuditModel, JobModel, Db, find_audit, find_job, put_audit, audit_key}
use wirescope.Jobs.Coherence.Create.{insert_job-inv, reopened-IsCoherent}
use wirescope.Table

-- What `retry` did, step by step.
pub record Retrying (now : ℕ) (job source : JobModel) (db db' : Db) : Type 0 where
  pub audit : AuditModel
  pub audit_found : find_audit source.audit_id db ≡ some audit
  pub opened : AuditModel
  pub reopened : reopen now audit ≡ ok opened
  pub new : AuditModel
  pub new_id : new.id ≡ opened.id
  pub new_status : new.status ≡ opened.status
  pub added_db : Db
  pub inserted : insert_job job (put_audit new db) ≡ ok added_db
  pub jobs : db'.jobs ≡ added_db.jobs
  pub audits : db'.audits ≡ added_db.audits

require_job-inv :
    (db : Db) (k : String) (j : JobModel) → require_job db k ≡ ok j → find_job k db ≡ some j
unfolding require_job
require_job-inv db k j h = ground arith

not-true : (b : Bool) → not b ≡ true → b ≡ false
not-true b h = ground arith

pub reopen-running :
    (now : ℕ) (a b : AuditModel)
    → reopen now a ≡ ok b
    → (b.id ≡ a.id) × (b.status ≡ AuditStatus.running)
unfolding reopen require_audit_transition
reopen-running now a b h = ground arith

pub retry-Retrying :
    (now : ℕ) (id job_id : String) (actor : Option String) (db : Db) (r : JobRecord) (db' : Db)
    → retry now id job_id actor db ≡ ok (r, db')
    → (source : JobModel) × (find_job job_id db ≡ some source)
      × (retryable source.status ≡ true)
      × (any (is_equivalent source) db.jobs ≡ false)
      × Retrying now (replacement now id source) source db db'
unfolding retry add_event_with
retry-Retrying now id job_id actor db r db' c =
    let (source, fs, c₁) = >>=-eq-ok (require_job db job_id) _ c in
    let (d₁, g₁, c₂) = >>=-eq-ok (guard (retryable source.status) _) _ c₁ in
    let (d₂, g₂, c₃) = >>=-eq-ok (guard (not (needs_credentials source.type)) _) _ c₂ in
    let (d₃, g₃, c₄) = >>=-eq-ok (guard (not (any (is_equivalent source) db.jobs)) _) _ c₃ in
    let (a, fa, c₅) = >>=-eq-ok (require_audit db source.audit_id) _ c₄ in
    let (opened, o, c₆) = >>=-eq-ok (reopen now a) _ c₅ in
    let (added_db, i, e) = >>=-eq-ok (insert_job (replacement now id source) _) _ c₆ in
    (
      source,
      require_job-inv db job_id source fs,
      guard-eq-ok (retryable source.status) _ d₁ g₁,
      not-true _ (guard-eq-ok (not (any (is_equivalent source) db.jobs)) _ d₃ g₃),
      record {
        audit = a;
        audit_found = require_audit-inv db source.audit_id a fa;
        opened = opened;
        reopened = o;
        new = record opened { started_at = some (or_now opened.started_at now) };
        new_id = refl;
        new_status = refl;
        added_db = added_db;
        inserted = i;
        jobs = sym (ap (λ d. d.jobs) (snd_eq e));
        audits = sym (ap (λ d. d.audits) (snd_eq e));
      },
    )

-- Where every audit agrees with its jobs, a call of retry that returns leaves them in agreement,
-- though the audit of the retried job had ended.
pub retry-IsCoherent :
    (now : ℕ) (id job_id : String) (actor : Option String) (db : Db) (r : JobRecord) (db' : Db)
    → IsCoherent db
    → retry now id job_id actor db ≡ ok (r, db')
    → IsCoherent db'
unfolding replacement
retry-IsCoherent now id job_id actor db r db' h c =
    let (source, fs, _, _, t) = retry-Retrying now id job_id actor db r db' c in
    let (oid, runs) = reopen-running now t.audit t.opened t.reopened in
    let key = Table.key-find audit_key source.audit_id db.audits t.audit t.audit_found in
    let (absent, e) = insert_job-inv (replacement now id source) _ t.added_db t.inserted in
    same_tables-IsCoherent t.added_db db' t.jobs t.audits (
      subst IsCoherent (sym e) (
        reopened-IsCoherent (replacement now id source) refl db h t.new (t.new_id ∙ oid ∙ key)
          (t.new_status ∙ runs)))
