-- ===== src/Jobs/Restart/Refreshing.antt =====
-- The second loop of `_recover_running` (jobs/service.py): the audits of the interrupted jobs.
use wirescope.Prelude.{
  ℕ, ap, subst, String, ◌≡◌, ◌≢◌, refl, sym, ◌∙◌, inl, inr, Bool, true, false, some, List, [], ◌∷◌,
  arith, str_eq, eq_iff, any, All, All-map, Bool-cases, text-cases,
}
use wirescope.Result.{ok}
use wirescope.Jobs.Models.{AuditStatus}
use wirescope.Jobs.Steps.{statuses, is_nil}
use wirescope.Jobs.Supervision.{refresh_all, audit_ids}
use wirescope.Jobs.Coherence.{
  IsCoherent, agrees, refresh_audit-inv, refresh_audit-tables, refresh_audit-total,
  Refreshed-agrees, Refreshed-others,
}
use wirescope.Jobs.Liveness.{running_to_desired}
use wirescope.Jobs.Writes.{Writes, nothing, Writes-trans}
use wirescope.Jobs.Writes.Transactions.{one, refresh_audit-Write}
use wirescope.Persistence.{AuditModel, JobModel, Db, find_audit}
use wirescope.Table.Keys.{Fresh, Distinct}

abbrev pub listed : String → List String → Bool
listed k ks = any (λ i. str_eq i k) ks

abbrev pub itself : String → String
itself k = k

-- Audits and jobs agree, but for these audits.
abbrev pub IsCoherentExcept : List String → Db → Type 0
IsCoherentExcept ks db =
    (k : String) (a : AuditModel)
    → listed k ks ≡ false
    → find_audit k db ≡ some a
    → agrees a.status (statuses k db.jobs) ≡ true

-- The audit runs and has jobs.
abbrev pub Pending : Db → String → Type 0
Pending db k =
    ((a : AuditModel) × (find_audit k db ≡ some a) × (a.status ≡ AuditStatus.running))
    × (is_nil (statuses k db.jobs) ≡ false)

pub listed-Fresh : (k : String) (ks : List String) → listed k ks ≡ false → Fresh itself k ks
listed-Fresh k [] h = tt
listed-Fresh k (i ∷ ks) h =
    (λ e. ground (arith, eq_iff i k, sym e), listed-Fresh k ks (ground arith))

-- Every audit that pends is refreshed, and then all agree.
pub record AllRefreshed (now : ℕ) (ks : List String) (db : Db) : Type 0 where
  pub after : Db
  pub returns : refresh_all now ks db ≡ ok after
  pub coherent : IsCoherent after
  pub jobs : after.jobs ≡ db.jobs
  pub locks : after.locks ≡ db.locks
  pub workers : after.workers ≡ db.workers
  pub writes : Writes db after

Pending-refreshed :
    (db d : Db) (js : List String)
    → d.jobs ≡ db.jobs
    → All (λ j. find_audit j d ≡ find_audit j db) js
    → All (Pending db) js
    → All (Pending d) js
Pending-refreshed db d [] jobs same p = tt
Pending-refreshed db d (j ∷ js) jobs same (((a, found, runs), some_job), p) = (
  ((a, same.0 ∙ found, runs), ap (λ t. is_nil (statuses j t)) jobs ∙ some_job),
  Pending-refreshed db d js jobs same.1 p,
)

pub Pending-AllRefreshed :
    (now : ℕ) (ks : List String) (db : Db)
    → Distinct itself ks
    → All (Pending db) ks
    → IsCoherentExcept ks db
    → AllRefreshed now ks db
unfolding refresh_all
Pending-AllRefreshed now [] db d p h = record {
  after = db;
  returns = refl;
  coherent = λ k a f. h k a refl f;
  jobs = refl;
  locks = refl;
  workers = refl;
  writes = nothing;
}
Pending-AllRefreshed now (k ∷ ks) db (fresh, distinct) (((a, found, runs), some_job), p) h =
    let (d, e) =
      refresh_audit-total now k db a found (rw runs (running_to_desired (statuses k db.jobs))) in
    let (b, found', r) = refresh_audit-inv now k db d e in
    let (jobs, locks, workers, events) = refresh_audit-tables now k db d e in
    let rest =
      Pending-AllRefreshed now ks d distinct
        (Pending-refreshed db d ks jobs
          (All-map _ _ ks (λ j n. Refreshed-others now k db d some_job b found' r j n) fresh) p)
        (λ j c absent f. rw jobs (elim (text-cases k j) [
          | inl q ↦
              subst (λ i. agrees c.status (statuses i db.jobs) ≡ true) q
                (Refreshed-agrees now k db d some_job b found' r c
                  (subst (λ i. find_audit i d ≡ some c) (sym q) f))
          | inr n ↦
              h j c (ground (arith, absent, eq_iff k j))
                (sym (Refreshed-others now k db d some_job b found' r j n) ∙ f)
        ])) in
    record {
      after = rest.after;
      returns = rw e rest.returns;
      coherent = rest.coherent;
      jobs = rest.jobs ∙ jobs;
      locks = rest.locks ∙ locks;
      workers = rest.workers ∙ workers;
      writes = Writes-trans (one (refresh_audit-Write now k db d e)) rest.writes;
    }

-- The audits of jobs, each once.
pub audit_ids-All :
    (P : String → Type 0) (js : List JobModel) → All (λ j. P j.audit_id) js → All P (audit_ids js)
unfolding audit_ids
audit_ids-All P [] h = tt
audit_ids-All P (j ∷ js) h = elim (Bool-cases (listed j.audit_id (audit_ids js))) [
  | inl e ↦ rw e (audit_ids-All P js h.1)
  | inr e ↦ rw e (h.0, audit_ids-All P js h.1)
]

pub audit_ids-Distinct : (js : List JobModel) → Distinct itself (audit_ids js)
unfolding audit_ids
audit_ids-Distinct [] = tt
audit_ids-Distinct (j ∷ js) = elim (Bool-cases (listed j.audit_id (audit_ids js))) [
  | inl e ↦ rw e (audit_ids-Distinct js)
  | inr e ↦ rw e (listed-Fresh j.audit_id (audit_ids js) e, audit_ids-Distinct js)
]

pub audit_ids-absent :
    (k : String) (js : List JobModel)
    → listed k (audit_ids js) ≡ false
    → All (λ j. j.audit_id ≢ k) js
unfolding audit_ids
audit_ids-absent k [] h = tt
audit_ids-absent k (j ∷ js) h = elim (Bool-cases (listed j.audit_id (audit_ids js))) [
  | inl e ↦
      let absent : listed k (audit_ids js) ≡ false = rw e at h in
      (
        λ q. ground (arith, e, subst (λ i. listed i (audit_ids js) ≡ false) (sym q) absent),
        audit_ids-absent k js absent,
      )
  | inr e ↦
      let absent : listed k (j.audit_id ∷ audit_ids js) ≡ false = rw e at h in
      (λ q. ground (arith, eq_iff j.audit_id k), audit_ids-absent k js (ground arith))
]
