-- ===== src/Jobs/Claiming.antt =====
-- A proof rule for the loop of `claim_next` (jobs/service.py): what holds while jobs have to wait, and
-- what the claim at its end makes of it.
use wirescope.Prelude.{
  ℕ, ap, subst, String, ◌≡◌, ◌≢◌, ◌∙◌, inl, inr, true, Option, none, some, List, [], ◌∷◌, arith,
  Bool-cases, All, All-map, All-keep, keep, str_eq,
}
use wirescope.Prelude.Sort.{All-sort_by}
use wirescope.Result.{fst_eq, snd_eq, ok, >>=-eq-ok}
use wirescope.Jobs.Models.{JobStatus}
use wirescope.Jobs.Steps.{resource_available, add_event}
use wirescope.Jobs.Execution.{
  claim, claim_from, claim_next, candidates, mark_waiting, claims_before, is_queued,
}
use wirescope.Jobs.Records.{JobRecord}
use wirescope.Persistence.{JobModel, Db, find_job, job_key}
use wirescope.Table
use wirescope.Table.Keys.{Fresh, Distinct, Distinct-find, Distinct-keep, Distinct-sort_by}

-- The job is queued, and the row is the one in the table.
abbrev pub Waits : Db → JobModel → Type 0
Waits db j = (find_job j.id db ≡ some j) × (j.status ≡ JobStatus.queued)

pub find_job-mark_waiting :
    (now : ℕ) (job : JobModel) (k : String) (db : Db)
    → job.id ≢ k
    → find_job k (mark_waiting now job db) ≡ find_job k db
unfolding mark_waiting add_event
find_job-mark_waiting now job k db n = elim (Bool-cases (str_eq job.stage "resource_wait")) [
  | inl w ↦ rw w
  | inr w ↦ rw w (Table.find-replace_ne job_key _ k db.jobs n)
]

Waits-mark_waiting :
    (now : ℕ) (job : JobModel) (db : Db) (js : List JobModel)
    → Fresh job_key job.id js
    → All (Waits db) js
    → All (Waits (mark_waiting now job db)) js
Waits-mark_waiting now job db [] f a = tt
Waits-mark_waiting now job db (j ∷ js) f a = (
  (find_job-mark_waiting now job j.id db f.0 ∙ a.0.0, a.0.1),
  Waits-mark_waiting now job db js f.1 a.1,
)

is_queued→eq : (j : JobModel) → is_queued j ≡ true → j.status ≡ JobStatus.queued
is_queued→eq j h = ground arith

All-is_queued : (js : List JobModel) → All (λ j. is_queued j ≡ true) (keep is_queued js)
All-is_queued [] = tt
All-is_queued (j ∷ js) = elim (Bool-cases (is_queued j)) [
  | inl e ↦ rw e (e, All-is_queued js)
  | inr e ↦ rw e (All-is_queued js)
]

All-both {κ} :
    (P Q : JobModel → Type κ) (js : List JobModel) → All P js → All Q js → All (λ j. P j × Q j) js
All-both P Q [] p q = tt
All-both P Q (j ∷ js) p q = ((p.0, q.0), All-both P Q js p.1 q.1)

-- The candidates are queued rows of the table, each once.
candidates-Waits : (db : Db) → Distinct job_key db.jobs → All (Waits db) (candidates db)
unfolding candidates
candidates-Waits db d = All-sort_by claims_before (Waits db) (keep is_queued db.jobs) (
    All-both _ _ (keep is_queued db.jobs)
      (All-keep _ is_queued db.jobs (Distinct-find job_key db.jobs d))
      (All-map _ _ (keep is_queued db.jobs) is_queued→eq (All-is_queued db.jobs)))

candidates-Distinct : (db : Db) → Distinct job_key db.jobs → Distinct job_key (candidates db)
unfolding candidates
candidates-Distinct db d =
    Distinct-sort_by job_key claims_before (keep is_queued db.jobs)
      (Distinct-keep job_key is_queued db.jobs d)

pub record Rule (now : ℕ) (worker_id : String) (P : Db → Type 0) (Q : Option JobModel → Db → Type 0)
    : Type 0 where
  pub waits : (job : JobModel) (db : Db) → Waits db job → P db → P (mark_waiting now job db)
  pub idles : (db : Db) → P db → Q none db
  pub takes :
      (job : JobModel) (db : Db) (claimed : JobModel) (db' : Db)
      → Waits db job
      → resource_available db job ≡ true
      → P db
      → claim now worker_id job db ≡ ok (claimed, db')
      → Q (some claimed) db'

module _ (now : ℕ) (worker_id : String) {P : Db → Type 0} {Q : Option JobModel → Db → Type 0}
    (rule : Rule now worker_id P Q) where
  pub claim_from_ind :
      (js : List JobModel) (db : Db) (r : Option JobModel) (db' : Db)
      → Distinct job_key js
      → All (Waits db) js
      → P db
      → claim_from now worker_id js db ≡ ok (r, db')
      → Q r db'
  unfolding claim_from
  claim_from_ind [] db r db' d w p h =
      subst (λ o. Q o db') (fst_eq h) (subst (Q none) (snd_eq h) (rule.idles db p))
  claim_from_ind (job ∷ js) db r db' d w p h = elim (Bool-cases (resource_available db job)) [
    | inl free ↦
        let ((claimed, db₁), c, e) =
          >>=-eq-ok (claim now worker_id job db) _ (rw (free, claim_from) at h) in
        subst (λ o. Q o db') (fst_eq e)
          (subst (Q (some claimed)) (snd_eq e) (rule.takes job db claimed db₁ w.0 free p c))
    | inr busy ↦
        claim_from_ind js (mark_waiting now job db) r db' d.1
          (Waits-mark_waiting now job db js d.0 w.1) (rule.waits job db w.0 p)
          (rw (busy, claim_from) at h)
  ]

  -- The same for `claim_next`: whatever it returns, the rule's conclusion holds of what it claimed.
  pub claim_next_ind :
      (db : Db) (r : Option JobRecord) (db' : Db)
      → Distinct job_key db.jobs
      → P db
      → claim_next now worker_id db ≡ ok (r, db')
      → (c : Option JobModel) × Q c db'
        × (claim_from now worker_id (candidates db) db ≡ ok (c, db'))
  unfolding claim_next
  claim_next_ind db r db' d p h =
      let ((c, db₁), e, f) = >>=-eq-ok (claim_from now worker_id (candidates db) db) _ h in
      let e' : claim_from now worker_id (candidates db) db ≡ ok (c, db') =
        e ∙ ap (λ x. ok (c, x)) (snd_eq f) in
      (
        c,
        claim_from_ind (candidates db) db c db' (candidates-Distinct db d) (candidates-Waits db d) p
            e',
        e',
      )
