-- ===== src/Jobs/Coherence.antt =====
-- The agreement of an audit row with its job rows, and `_refresh_audit` (jobs/service.py).
pub mod Moves
pub mod Finish
pub mod Queue
pub mod Claim
pub mod Claims
pub mod Create
pub mod Retry
use wirescope.Prelude.{
  ℕ, subst, String, ◌≡◌, ◌≢◌, refl, sym, ◌∙◌, ◌⊎◌, inl, inr, Bool, true, false, ◌||◌, some, List,
  [], arith, any, Option-cases, text-cases, if◌then◌else◌,
}
use wirescope.Result.{ok}
use wirescope.Jobs.Models.{AuditStatus, JobStatus}
use wirescope.Jobs.State.{audit_transitions, require_audit_transition}
use wirescope.Jobs.Steps.{
  statuses, desired_status, is_active, audit_status_eq, is_nil, refreshed, refresh_audit,
}
use wirescope.Persistence.{AuditModel, Db, find_audit, audit_key, put_audit}
use wirescope.Table

abbrev pub is_unqueued : JobStatus → Bool
is_unqueued JobStatus.queued = false
is_unqueued _ = true

-- A created audit has queued jobs only; a running one has a job that is queued or runs; one that has
-- ended has no jobs, or jobs that have all ended the way its status says.
abbrev pub agrees : AuditStatus → List JobStatus → Bool
agrees AuditStatus.created ss = if any is_unqueued ss then false else true
agrees AuditStatus.running ss = any is_active ss
agrees s ss = is_nil ss || audit_status_eq s (desired_status ss)

abbrev pub IsCoherent : Db → Type 0
IsCoherent db =
    (k : String) (a : AuditModel)
    → find_audit k db ≡ some a
    → agrees a.status (statuses k db.jobs) ≡ true

-- The same for every audit but one, between the write of a job and the refresh of its audit.
abbrev pub IsCoherentBut : String → Db → Type 0
IsCoherentBut but db =
    (k : String) (a : AuditModel)
    → but ≢ k
    → find_audit k db ≡ some a
    → agrees a.status (statuses k db.jobs) ≡ true

pub agrees-desired : (ss : List JobStatus) → agrees (desired_status ss) ss ≡ true
unfolding desired_status
agrees-desired ss = ground arith

audit_status_eq→eq : (s t : AuditStatus) → audit_status_eq s t ≡ true → s ≡ t
audit_status_eq→eq s t h = ground arith

pub status-refreshed :
    (now : ℕ) (ss : List JobStatus) (s : AuditStatus) (a : AuditModel)
    → (refreshed now ss s a).status ≡ s
unfolding refreshed
status-refreshed now ss AuditStatus.created a = refl
status-refreshed now ss _ a = refl

pub id-refreshed :
    (now : ℕ) (ss : List JobStatus) (s : AuditStatus) (a : AuditModel)
    → (refreshed now ss s a).id ≡ a.id
unfolding refreshed
id-refreshed now ss AuditStatus.created a = refl
id-refreshed now ss _ a = refl

module _ (now : ℕ) (k : String) (db db' : Db) where
  abbrev pub Refreshed : AuditModel → Type 0
  Refreshed a =
      let ss = statuses k db.jobs in
      let desired = desired_status ss in
      (((is_nil ss || audit_status_eq a.status desired) ≡ true) × (db' ≡ db))
      ⊎ (((is_nil ss || audit_status_eq a.status desired) ≡ false)
          × (audit_transitions a.status desired ≡ true)
          × (db' ≡ put_audit (refreshed now ss desired a) db))

  -- A refresh that succeeds found its audit, and left it or moved it along a transition.
  pub refresh_audit-inv :
      refresh_audit now k db ≡ ok db' → (a : AuditModel) × (find_audit k db ≡ some a) × Refreshed a
  unfolding refresh_audit require_audit_transition
  refresh_audit-inv h = elim (Option-cases (find_audit k db)) [
    | inl e ↦ ground arith
    | inr (a, e) ↦ (a, e, ground arith)
  ]

module _ (now : ℕ) (k : String) (db db' : Db) (some_job : is_nil (statuses k db.jobs) ≡ false) where
  abbrev ss : List JobStatus
  ss = statuses k db.jobs

  pub Refreshed-agrees :
      (a : AuditModel)
      → find_audit k db ≡ some a
      → Refreshed now k db db' a
      → (b : AuditModel) → find_audit k db' ≡ some b
      → agrees b.status ss ≡ true
  Refreshed-agrees a found (inl (same, e)) b f =
      ground (arith, audit_status_eq→eq a.status (desired_status ss), agrees-desired ss)
  Refreshed-agrees a found (inr (differs, allowed, e)) b f = ground (
    arith,
    Table.find-replace_self audit_key (refreshed now ss (desired_status ss) a) a k db.audits,
    id-refreshed now ss (desired_status ss) a,
    status-refreshed now ss (desired_status ss) a,
    Table.key-find audit_key k db.audits a,
    agrees-desired ss,
  )

  pub Refreshed-others :
      (a : AuditModel)
      → find_audit k db ≡ some a
      → Refreshed now k db db' a
      → (j : String) → k ≢ j
      → find_audit j db' ≡ find_audit j db
  Refreshed-others a found (inl (same, e)) j n = rw e
  Refreshed-others a found (inr (differs, allowed, e)) j n = rw e (
      Table.find-replace_ne audit_key (refreshed now ss (desired_status ss) a) j db.audits λ p. n (
        sym (Table.key-find audit_key k db.audits a found)
        ∙ sym (id-refreshed now ss (desired_status ss) a)
        ∙ p))

-- A refresh touches the audit rows only.
pub refresh_audit-tables :
    (now : ℕ) (k : String) (db db' : Db)
    → refresh_audit now k db ≡ ok db'
    → (db'.jobs ≡ db.jobs)
      × (db'.locks ≡ db.locks)
      × (db'.workers ≡ db.workers)
      × (db'.events ≡ db.events)
refresh_audit-tables now k db db' h = elim (refresh_audit-inv now k db db' h).2 [
  | inl same ↦ rw same.1 (refl, refl, refl, refl)
  | inr moved ↦ rw moved.2 (refl, refl, refl, refl)
]

-- After the refresh of an audit that has jobs, the audit agrees with them too.
pub refresh_audit-IsCoherent :
    (now : ℕ) (k : String) (db db' : Db)
    → IsCoherentBut k db
    → is_nil (statuses k db.jobs) ≡ false
    → refresh_audit now k db ≡ ok db'
    → IsCoherent db'
refresh_audit-IsCoherent now k db db' others some_job h j b f =
    let (a, found, r) = refresh_audit-inv now k db db' h in
    rw (refresh_audit-tables now k db db' h).0 (elim (text-cases k j) [
      | inl e ↦
          subst (λ i. agrees b.status (statuses i db.jobs) ≡ true) e
            (Refreshed-agrees now k db db' some_job a found r b (rw e f))
      | inr n ↦ others j b n (sym (Refreshed-others now k db db' some_job a found r j n) ∙ f)
    ])

-- A refresh succeeds where the audit is there and may move to the status that its jobs ask for.
pub refresh_audit-total :
    (now : ℕ) (k : String) (db : Db) (a : AuditModel)
    → find_audit k db ≡ some a
    → (audit_status_eq a.status (desired_status (statuses k db.jobs))
        || audit_transitions a.status (desired_status (statuses k db.jobs)))
      ≡ true
    → (db' : Db) × (refresh_audit now k db ≡ ok db')
unfolding refresh_audit require_audit_transition
refresh_audit-total now k db a found h =
    let ss = statuses k db.jobs in
    let desired = desired_status ss in
    (
      if is_nil ss || audit_status_eq a.status desired
          then db
          else put_audit (refreshed now ss desired a) db,
      ground arith,
    )
