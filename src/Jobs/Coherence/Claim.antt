-- ===== src/Jobs/Coherence/Claim.antt =====
-- A claim (`claim_next` of jobs/service.py), step by step, and the agreement of audits with their jobs.
-- Claiming reads its candidates before its loop, so each has to be still the row in the table.
use Prim.Native.Nat.{max}
use wirescope.Prelude.{
  ℕ, ◌+◌, ap, subst, String, ◌≡◌, refl, sym, ◌∙◌, ◌⊎◌, inl, inr, true, none, some, List, [], ◌∷◌,
  ◌++◌, arith, text-cases, any,
}
use wirescope.Result.{fst_eq, snd_eq, ok, >>=-eq-ok, ok-injective}
use wirescope.Jobs.Models.{AuditStatus, JobStatus}
use wirescope.Jobs.State.{audit_transitions, require_audit_transition}
use wirescope.Jobs.Steps.{statuses, transition_job, is_active, require_audit, desired_status}
use wirescope.Jobs.Execution.{lock_resource, enter, claim, start_audit}
use wirescope.Jobs.Coherence.{IsCoherent, IsCoherentBut, agrees}
use wirescope.Jobs.Coherence.Moves.{Transition, transition_job-Transition}
use wirescope.Persistence.{
  AuditModel, JobModel, Db, find_audit, find_job, put_job, put_audit, audit_key,
}
use wirescope.Table

-- An audit that agrees with jobs of which one is queued or runs has not ended.
pub agrees-active :
    (s : AuditStatus) (ss : List JobStatus)
    → any is_active ss ≡ true
    → agrees s ss ≡ true
    → (s ≡ AuditStatus.created) ⊎ (s ≡ AuditStatus.running)
unfolding desired_status
agrees-active s [] a h = cc
agrees-active s (x ∷ ss) a h = ground arith

pub any_active-middle :
    (xs ys : List JobStatus) (s : JobStatus)
    → is_active s ≡ true
    → any is_active (xs ++ s ∷ ys) ≡ true
any_active-middle [] ys s h = ground arith
any_active-middle (x ∷ xs) ys s h = ground (arith, any_active-middle xs ys s h)

-- The audit left out agrees after all.
pub close-IsCoherent :
    (k : String) (new : AuditModel) (db : Db)
    → new.id ≡ k
    → IsCoherentBut k db
    → agrees new.status (statuses k db.jobs) ≡ true
    → IsCoherent (put_audit new db)
close-IsCoherent k new db id others new_agrees j a f =
    elim (Table.find-replace-inv audit_key new a j db.audits f) [
      | inl (key, e, _) ↦ ground (arith, id, key, new_agrees)
      | inr (differs, g) ↦ others j a (λ p. differs (id ∙ p)) g
    ]

pub closed-IsCoherent :
    (k : String) (a : AuditModel) (db : Db)
    → find_audit k db ≡ some a
    → IsCoherentBut k db
    → agrees a.status (statuses k db.jobs) ≡ true
    → IsCoherent db
closed-IsCoherent k a db found others a_agrees j b f = elim (text-cases k j) [
  | inl e ↦ let same : some a ≡ some b = sym found ∙ ap (λ i. find_audit i db) e ∙ f in ground arith
  | inr n ↦ others j b n f
]

-- What `start_audit` leaves, of an audit that a queued job kept from ending.
pub start_audit-IsCoherent :
    (now : ℕ) (k : String) (a : AuditModel) (db db' : Db)
    → find_audit k db ≡ some a
    → (a.status ≡ AuditStatus.created) ⊎ (a.status ≡ AuditStatus.running)
    → any is_active (statuses k db.jobs) ≡ true
    → IsCoherentBut k db
    → start_audit now a db ≡ ok db'
    → IsCoherent db'
unfolding start_audit require_audit_transition audit_transitions
start_audit-IsCoherent now k a db db' found (inl e) active others h =
    subst IsCoherent (ok-injective (rw e at h))
      (close-IsCoherent k _ db (Table.key-find audit_key k db.audits a found) others active)
start_audit-IsCoherent now k a db db' found (inr e) active others h =
    subst IsCoherent (ok-injective (rw e at h))
      (closed-IsCoherent k a db found others (rw e active))

pub lock_resource-tables :
    (now : ℕ) (worker_id : String) (job : JobModel) (db db' : Db)
    → lock_resource now worker_id job db ≡ ok db'
    → (db'.jobs ≡ db.jobs) × (db'.audits ≡ db.audits) × (db'.workers ≡ db.workers)
unfolding lock_resource
lock_resource-tables now worker_id job db db' h = ground arith

-- What a claim did after it wrote the row.
pub record Entered (now : ℕ) (worker_id : String) (claimed : JobModel) (db db' : Db) : Type 0 where
  pub locked_db : Db
  pub locked : lock_resource now worker_id claimed db ≡ ok locked_db
  pub audit : AuditModel
  pub audit_found : find_audit claimed.audit_id locked_db ≡ some audit
  pub started : start_audit now audit locked_db ≡ ok db'

pub require_audit-inv :
    (db : Db) (k : String) (a : AuditModel) → require_audit db k ≡ ok a → find_audit k db ≡ some a
unfolding require_audit
require_audit-inv db k a h = ground arith

pub enter-Entered :
    (now : ℕ) (worker_id : String) (job : JobModel) (db : Db) (claimed : JobModel) (db' : Db)
    → enter now worker_id job db ≡ ok (claimed, db')
    → (claimed ≡ job) × Entered now worker_id job db db'
unfolding enter
enter-Entered now worker_id job db claimed db' h =
    let (locked, l, r) = >>=-eq-ok (lock_resource now worker_id job db) _ h in
    let (a, fa, q) = >>=-eq-ok (require_audit locked job.audit_id) _ r in
    let (started, s, e) = >>=-eq-ok (start_audit now a locked) _ q in
    (
      sym (fst_eq e),
      record {
        locked_db = locked;
        locked = l;
        audit = a;
        audit_found = require_audit-inv locked job.audit_id a fa;
        started = s ∙ ap ok (snd_eq e);
      },
    )

-- What a claim that succeeded did.
pub record Claiming (now : ℕ) (worker_id : String) (job : JobModel) (db : Db) (claimed : JobModel)
    (db' : Db) : Type 0 where
  pub moved_job : JobModel
  pub moved_db : Db
  pub transition :
      Transition job.id job job JobStatus.running (max 1 job.progress) db moved_job moved_db
  pub claimed_is :
      claimed ≡ record moved_job { worker_id = some worker_id; attempt = moved_job.attempt + 1 }
  pub entered : Entered now worker_id claimed (put_job claimed moved_db) db'

pub claim-Claiming :
    (now : ℕ) (worker_id : String) (job : JobModel) (db : Db) (claimed : JobModel) (db' : Db)
    → find_job job.id db ≡ some job
    → claim now worker_id job db ≡ ok (claimed, db')
    → Claiming now worker_id job db claimed db'
unfolding claim
claim-Claiming now worker_id job db claimed db' e h =
    let ((j, moved_db), t, r) =
      >>=-eq-ok
        (transition_job now job JobStatus.running "starting" (max 1 job.progress)
          "Worker claimed job" none db)
        _ h in
    let (is, entered) =
      enter-Entered now worker_id (record j { worker_id = some worker_id; attempt = j.attempt + 1 })
        _ claimed db' r in
    record {
      moved_job = j;
      moved_db = moved_db;
      transition =
          transition_job-Transition now job.id job job _ _ _ _ _ db j moved_db
            (record { found = e; id = refl; audit_id = refl }) t;
      claimed_is = is;
      entered = subst (λ c. Entered now worker_id c (put_job c moved_db) db') (sym is) entered;
    }
