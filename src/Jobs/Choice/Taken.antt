-- ===== src/Jobs/Choice/Taken.antt =====
-- The job a claim takes of its candidates, and its row afterwards (`claim_next` of jobs/service.py).
use Prim.Native.Nat.{max}
use Prim.Native.String.{◌++◌ as append}
use wirescope.Prelude.{
  ℕ, ◌+◌, ap, subst, String, ◌≡◌, refl, sym, ◌∙◌, ◌⊎◌, inl, inr, true, false, Option, none, some,
  List, [], ◌∷◌, arith, str_eq, All, Bool-cases, is_some, eq_iff, All-map,
}
use wirescope.Result.{ok, >>=-eq-ok, ok-injective}
use wirescope.Jobs.Models.{JobStatus, status_value}
use wirescope.Jobs.Steps.{resource_available, transition_job, add_event}
use wirescope.Jobs.Execution.{start_audit, claim, claim_from, candidates, mark_waiting}
use wirescope.Jobs.Coherence.Moves.{add_event-tables, transition_job-inv, moved-keeps}
use wirescope.Jobs.Coherence.Claim.{enter-Entered, Entered, lock_resource-tables}
use wirescope.Jobs.State.{audit_transitions, require_audit_transition}
use wirescope.Persistence.{AuditModel, JobModel, Db, put_job, find_job, job_key}
use wirescope.Table
use wirescope.Prelude.In.{In, All-In}
use wirescope.Jobs.Choice.Order.{candidate_from}

-- Waiting takes no lock.
available-locks :
    (j : JobModel) (db d : Db)
    → d.locks ≡ db.locks
    → resource_available d j ≡ resource_available db j
unfolding resource_available
available-locks j db d e = ground arith

mark_waiting-locks :
    (now : ℕ) (job : JobModel) (db : Db) → (mark_waiting now job db).locks ≡ db.locks
unfolding mark_waiting add_event
mark_waiting-locks now job db = elim (Bool-cases (str_eq job.stage "resource_wait")) [
  | inl e ↦ rw e refl
  | inr e ↦ rw e refl
]

available-mark_waiting :
    (now : ℕ) (job j : JobModel) (db : Db)
    → resource_available (mark_waiting now job db) j ≡ resource_available db j
available-mark_waiting now job j db =
    available-locks j db (mark_waiting now job db) (mark_waiting-locks now job db)

-- The first of the jobs that is available.
abbrev pub First : Db → List JobModel → JobModel → Type 0
First db [] job = ⊥
First db (x ∷ xs) job =
    ((x ≡ job) × (resource_available db job ≡ true))
    ⊎ ((resource_available db x ≡ false) × First db xs job)

First-ap :
    (db d : Db) (js : List JobModel) (job : JobModel)
    → ((j : JobModel) → resource_available d j ≡ resource_available db j)
    → First d js job
    → First db js job
First-ap db d [] job same h = h
First-ap db d (x ∷ xs) job same (inl (e, free)) = inl (e, sym (same job) ∙ free)
First-ap db d (x ∷ xs) job same (inr (busy, h)) =
    inr (sym (same x) ∙ busy, First-ap db d xs job same h)

All-ap :
    (db d : Db) (js : List JobModel)
    → ((j : JobModel) → resource_available d j ≡ resource_available db j)
    → All (λ j. resource_available d j ≡ false) js
    → All (λ j. resource_available db j ≡ false) js
All-ap db d [] same h = tt
All-ap db d (x ∷ xs) same h = (sym (same x) ∙ h.0, All-ap db d xs same h.1)

-- There is a row under the job's key.
abbrev pub IsThere : Db → JobModel → Type 0
IsThere db j = is_some (find_job j.id db) ≡ true

put-IsThere : (a j : JobModel) (db : Db) → IsThere db j → IsThere (put_job a db) j
put-IsThere a j db h = ground (arith, Table.find-replace job_key a j.id db.jobs, h)

mark_waiting-IsThere :
    (now : ℕ) (job j : JobModel) (db : Db) → IsThere db j → IsThere (mark_waiting now job db) j
unfolding mark_waiting add_event
mark_waiting-IsThere now job j db h = elim (Bool-cases (str_eq job.stage "resource_wait")) [
  | inl e ↦ rw e h
  | inr e ↦ rw e (put-IsThere _ j db h)
]

All-mark_waiting :
    (now : ℕ) (job : JobModel) (db : Db) (js : List JobModel)
    → All (IsThere db) js
    → All (IsThere (mark_waiting now job db)) js
All-mark_waiting now job db js h = All-map _ _ js (λ j. mark_waiting-IsThere now job j db) h

In-IsThere :
    (js : List JobModel) (j : JobModel) → In j js → is_some (Table.find job_key j.id js) ≡ true
unfolding Table.find
In-IsThere [] j i = absurd i
In-IsThere (x ∷ xs) j (inl e) = ground (arith, eq_iff x.id j.id, ap (λ y. y.id) e)
In-IsThere (x ∷ xs) j (inr i) = ground (arith, In-IsThere xs j i)

pub candidates-IsThere : (db : Db) → All (IsThere db) (candidates db)
candidates-IsThere db =
    All-In (IsThere db) (candidates db) (λ j i. In-IsThere db.jobs j (candidate_from db j i).0)

put-found : (a : JobModel) (db : Db) → IsThere db a → find_job a.id (put_job a db) ≡ some a
put-found a db h = ground (arith, Table.find-replace job_key a a.id db.jobs, eq_iff a.id a.id, h)

start_audit-jobs :
    (now : ℕ) (a : AuditModel) (db db' : Db) → start_audit now a db ≡ ok db' → db'.jobs ≡ db.jobs
unfolding start_audit require_audit_transition audit_transitions
start_audit-jobs now a db db' h = ground arith

Entered-jobs :
    (now : ℕ) (worker_id : String) (claimed : JobModel) (db db' : Db)
    → Entered now worker_id claimed db db'
    → db'.jobs ≡ db.jobs
Entered-jobs now worker_id claimed db db' e =
    start_audit-jobs now e.audit e.locked_db db' e.started
    ∙ (lock_resource-tables now worker_id claimed db e.locked_db e.locked).0

-- What a claim makes of its job, also in the table.
abbrev Started : String → JobModel → JobModel → Db → Type 0
Started worker_id job c db' =
    (c.id ≡ job.id)
    × (c.status ≡ JobStatus.running)
    × (c.worker_id ≡ some worker_id)
    × (find_job c.id db' ≡ some c)

claim-Started :
    (now : ℕ) (worker_id : String) (job : JobModel) (db : Db) (c : JobModel) (db' : Db)
    → IsThere db job
    → claim now worker_id job db ≡ ok (c, db')
    → Started worker_id job c db'
unfolding claim
claim-Started now worker_id job db c db' there h =
    let ((j, d), t, r) =
      >>=-eq-ok
        (transition_job now job JobStatus.running "starting" (max 1 job.progress)
          "Worker claimed job" none db)
        _ h in
    let (allowed, is, after) = transition_job-inv now job _ _ _ _ _ db j d t in
    let (id, audit_id, status, progress, key, group) =
      moved-keeps now job JobStatus.running "starting" (max 1 job.progress) "Worker claimed job"
        none in
    let claimed : JobModel = record j { worker_id = some worker_id; attempt = j.attempt + 1 } in
    let (e, entered) = enter-Entered now worker_id claimed (put_job claimed d) c db' r in
    let jobs : d.jobs ≡ (put_job j db).jobs =
      ap (λ x. x.jobs) after
      ∙ (add_event-tables now j (append "job_" (status_value JobStatus.running))
          "Worker claimed job" (put_job j db)).0 in
    let stored : is_some (Table.find job_key j.id d.jobs) ≡ true =
      subst (λ js. is_some (Table.find job_key j.id js) ≡ true) (sym jobs)
        (subst (λ k. is_some (find_job k (put_job j db)) ≡ true) (sym (ap (λ x. x.id) is ∙ id))
          (put-IsThere j job db there)) in
    (
      ap (λ x. x.id) e ∙ ap (λ x. x.id) is ∙ id,
      ap (λ x. x.status) e ∙ ap (λ x. x.status) is ∙ status,
      ap (λ x. x.worker_id) e,
      subst (λ x. find_job x.id db' ≡ some x) (sym e)
          (ap (Table.find job_key claimed.id) (Entered-jobs now worker_id claimed _ db' entered)
            ∙ put-found claimed d stored),
    )

abbrev pub Took : String → Db → List JobModel → Option JobModel × Db → Type 0
Took worker_id db js (none, db') = All (λ j. resource_available db j ≡ false) js
Took worker_id db js (some c, db') =
    (job : JobModel) × First db js job × Started worker_id job c db'

pub claim_from-Took :
    (now : ℕ) (worker_id : String) (js : List JobModel) (db : Db) (c : Option JobModel) (db' : Db)
    → All (IsThere db) js
    → claim_from now worker_id js db ≡ ok (c, db')
    → Took worker_id db js (c, db')
unfolding claim_from
claim_from-Took now worker_id [] db c db' there h = subst (Took worker_id db []) (ok-injective h) tt
claim_from-Took now worker_id (job ∷ js) db c db' there h =
    elim (Bool-cases (resource_available db job)) [
      | inl free ↦
          let ((claimed, d), t, e) =
            >>=-eq-ok (claim now worker_id job db) _ (rw (free, claim_from) at h) in
          subst (Took worker_id db (job ∷ js)) (ok-injective e)
            (job, inl (refl, free), claim-Started now worker_id job db claimed d there.0 t)
      | inr busy ↦
          later c
            (claim_from-Took now worker_id js (mark_waiting now job db) c db'
              (All-mark_waiting now job db js there.1) (rw (busy, claim_from) at h))
            busy
    ]
  where
    later :
        (c : Option JobModel)
        → Took worker_id (mark_waiting now job db) js (c, db')
        → resource_available db job ≡ false
        → Took worker_id db (job ∷ js) (c, db')
    later none t busy =
        (busy, All-ap db (mark_waiting now job db) js (λ j. available-mark_waiting now job j db) t)
    later (some c) (chosen, first, started) busy = (
      chosen,
      inr (
        busy,
        First-ap db (mark_waiting now job db) js chosen (λ j. available-mark_waiting now job j db)
            first,
      ),
      started,
    )
