-- ===== src/Jobs/Writes/Transactions.antt =====
-- The transactions of jobs/service.py and backend/recovery.py as sequences of writes.
use wirescope.Prelude.{
  ℕ, ap, subst, String, ◌≡◌, refl, sym, ◌∙◌, ◌⊎◌, inl, inr, true, Option, none, some, arith, leb,
  Option-cases, Bool-cases, str_eq,
}
use wirescope.Result.{ok, guard, >>=-eq-ok, snd_eq, ok-injective}
use wirescope.Json.{Dict}
use wirescope.Jobs.Models.{JobStatus, AuditStatus, JobProgress}
use wirescope.Jobs.State.{job_transitions, audit_transitions, require_audit_transition}
use wirescope.Jobs.Steps.{
  transition_job, add_event, require_job, refresh_audit, refreshed, desired_status, statuses,
  release_lock, or_now,
}
use wirescope.Jobs.Execution.{
  request_cancel, cancel_arm, cancelled_before_start, update_progress, mark_waiting, is_running,
  claim_next, start_audit, merge_summary,
}
use wirescope.Jobs.Records.{JobRecord}
use wirescope.Jobs.Writes.{
  Write, Writes, job_write, audit_write, elsewhere, nothing, then, Writes-trans,
}
use wirescope.Jobs.Coherence.{refresh_audit-inv, id-refreshed, status-refreshed}
use wirescope.Jobs.Coherence.Moves.{
  Transition, find-row, transition_job-Transition, merge_summary-inv,
}
use wirescope.Jobs.Coherence.Finish.{Finishing, finish-inv}
use wirescope.Jobs.Coherence.Claim.{Claiming, claim-Claiming, lock_resource-tables}
use wirescope.Jobs.Coherence.Claims.{Transition-found}
use wirescope.Jobs.Claiming.{Rule, claim_next_ind}
use wirescope.Persistence.{
  AuditModel, JobModel, Db, find_audit, find_job, audit_key, job_key, put_job, put_audit,
}
use wirescope.Table
use wirescope.Table.Keys.{Distinct}

-- One write as a sequence.
abbrev pub one : {db d : Db} → Write db d → Writes db d
one w = then nothing w

pub Transition-Write :
    (k : String) (job old : JobModel) (desired : JobStatus) (progress : ℕ) (db : Db) (j : JobModel)
    (db' : Db)
    → Transition k job old desired progress db j db'
    → job.status ≡ old.status
    → Write db db'
Transition-Write k job old desired progress db j db' t same =
    job_write j old (find-row k j old db t.row) t.row.audit_id
      (inr (subst (λ s. Moved s j.status) same (rw (t.status) t.allowed))) t.jobs t.audits
  where
    Moved : JobStatus → JobStatus → Type 0
    Moved s u = job_transitions s u ≡ true

pub put_audit-Write :
    (k : String) (new old : AuditModel) (db db' : Db)
    → find_audit k db ≡ some old
    → new.id ≡ old.id
    → (old.status ≡ new.status) ⊎ (audit_transitions old.status new.status ≡ true)
    → db' ≡ put_audit new db
    → Write db db'
put_audit-Write k new old db db' f id m e =
    audit_write new old
      (subst (λ i. find_audit i db ≡ some old)
        (sym (id ∙ Table.key-find audit_key k db.audits old f)) f)
      m (ap (λ d. d.jobs) e) (ap (λ d. d.audits) e)

pub refresh_audit-Write :
    (now : ℕ) (k : String) (db db' : Db) → refresh_audit now k db ≡ ok db' → Write db db'
refresh_audit-Write now k db db' h =
    let (a, f, r) = refresh_audit-inv now k db db' h in
    elim r [
      | inl (same, e) ↦ elsewhere (ap (λ d. d.jobs) e) (ap (λ d. d.audits) e)
      | inr (differs, allowed, e) ↦
          let ss = statuses k db.jobs in
          put_audit-Write k (refreshed now ss (desired_status ss) a) a db db' f
            (id-refreshed now ss (desired_status ss) a)
            (inr (
              subst (λ s. audit_transitions a.status s ≡ true)
                (sym (status-refreshed now ss (desired_status ss) a)) allowed))
            e
    ]

merge_summary-Write :
    (k : String) (summary : Option Dict) (db db' : Db)
    → merge_summary k summary db ≡ ok db'
    → Write db db'
merge_summary-Write k s db db' h = elim (merge_summary-inv k s db db' h) [
  | inl e ↦ elsewhere (ap (λ d. d.jobs) e) (ap (λ d. d.audits) e)
  | inr (a, b, f, id, status, e) ↦ put_audit-Write k b a db db' f id (inl (sym status)) e
]

-- The audit stays, or starts to run.
module _ (now : ℕ) (a : AuditModel) (db db' : Db) where
  abbrev StartsOrStays : Type 0
  StartsOrStays =
      (db ≡ db')
      ⊎ ((b : AuditModel) × (b.id ≡ a.id)
          × (audit_transitions a.status b.status ≡ true)
          × (put_audit b db ≡ db'))

  abbrev started_audit : AuditModel
  started_audit = record a {
    status = AuditStatus.running;
    started_at = some (or_now a.started_at now);
    finished_at = none;
  }

  start_audit-at : (s : AuditStatus) → a.status ≡ s → start_audit now a db ≡ ok db' → StartsOrStays
  unfolding start_audit require_audit_transition audit_transitions
  start_audit-at AuditStatus.created e h =
      inr (started_audit, refl, rw e refl, ok-injective (rw e at h))
  start_audit-at AuditStatus.completed e h =
      inr (started_audit, refl, rw e refl, ok-injective (rw e at h))
  start_audit-at AuditStatus.running e h = inl (ok-injective (rw e at h))
  start_audit-at AuditStatus.failed e h = inl (ok-injective (rw e at h))
  start_audit-at AuditStatus.cancelled e h = inl (ok-injective (rw e at h))
  start_audit-at AuditStatus.interrupted e h = inl (ok-injective (rw e at h))

pub Finishing-Writes :
    (now : ℕ) (k : String) (desired : JobStatus) (summary : Option Dict) (db : Db) (r : JobRecord)
    (db' : Db)
    → Finishing now k desired summary db r db'
    → Writes db db'
unfolding release_lock
Finishing-Writes now k desired summary db r db' f =
    let (m, hm, hd) = finish-inv now f.moved_job summary f.moved_db r db' f.finished in
    let released : Write f.moved_db (release_lock f.moved_job.id f.moved_db) =
      elsewhere refl refl in
    then
      (then
        (then
          (one (
            Transition-Write k f.job f.old desired f.progress db f.moved_job f.moved_db f.transition
              f.same_status))
          released)
        (merge_summary-Write f.moved_job.audit_id summary _ m hm))
      (refresh_audit-Write now f.moved_job.audit_id m db' hd)

-- A row with the same status, and perhaps an event.
row-Write :
    (k : String) (new old : JobModel) (db db' : Db)
    → find_job k db ≡ some old
    → new.id ≡ old.id
    → new.audit_id ≡ old.audit_id
    → new.status ≡ old.status
    → db'.jobs ≡ Table.replace job_key new db.jobs
    → db'.audits ≡ db.audits
    → Write db db'
row-Write k new old db db' f id audit status jobs audits =
    job_write new old (find-row k new old db (record { found = f; id = id; audit_id = audit }))
      audit (inl (sym status)) jobs audits

pub mark_waiting-Write :
    (now : ℕ) (job : JobModel) (db : Db)
    → find_job job.id db ≡ some job
    → Write db (mark_waiting now job db)
unfolding mark_waiting add_event
mark_waiting-Write now job db f = elim (Bool-cases (str_eq job.stage "resource_wait")) [
  | inl w ↦ rw w (elsewhere refl refl)
  | inr w ↦ rw w (row-Write job.id _ job db _ f refl refl refl refl refl)
]

module _ (now : ℕ) (k : String) (db : Db) (r : JobRecord) (db' : Db) where
  cancel_arm-Writes :
      (job : JobModel)
      → find_job k db ≡ some job
      → (s : JobStatus) → cancel_arm s now job db ≡ ok (r, db')
      → Writes db db'
  unfolding cancel_arm add_event
  cancel_arm-Writes job e JobStatus.queued c =
      let ((j, moved_db), t, f) =
        >>=-eq-ok
          (transition_job now job JobStatus.cancelled "cancelled" job.progress
            "Queued job cancelled" (some cancelled_before_start) db)
          _ c in
      let (d, hd, g) = >>=-eq-ok (refresh_audit now j.audit_id moved_db) _ f in
      let move =
        transition_job-Transition now k job job _ _ _ _ _ db j moved_db
          (record { found = e; id = refl; audit_id = refl }) t in
      then
        (one (Transition-Write k job job JobStatus.cancelled job.progress db j moved_db move refl))
        (refresh_audit-Write now j.audit_id moved_db db' (hd ∙ ap ok (snd_eq g)))
  cancel_arm-Writes job e JobStatus.running c = elim (Bool-cases job.cancel_requested) [
    | inl asked ↦ subst (Writes db) (snd_eq (rw asked at c)) nothing
    | inr fresh ↦ subst (Writes db) (snd_eq (rw fresh at c)) (
        one (
          row-Write k (record job { cancel_requested = true }) job db _ e refl refl refl refl refl))
  ]
  cancel_arm-Writes job e _ c = subst (Writes db) (snd_eq c) nothing

  pub request_cancel-Writes : request_cancel now k db ≡ ok (r, db') → Writes db db'
  unfolding request_cancel require_job
  request_cancel-Writes c = elim (Option-cases (find_job k db)) [
    | inl e ↦ ground arith
    | inr (job, e) ↦ cancel_arm-Writes job e job.status (rw e at c)
  ]

  pub update_progress-Writes :
      (p : JobProgress) → update_progress now k p db ≡ ok (r, db') → Writes db db'
  unfolding update_progress require_job add_event
  update_progress-Writes p c = elim (Option-cases (find_job k db)) [
    | inl e ↦ ground arith
    | inr (job, e) ↦
        let (d, hd, rest) = >>=-eq-ok (guard (is_running job.status) _) _ (rw e at c) in
        let (d', hd', rest') = >>=-eq-ok (guard (leb job.progress p.percentage) _) _ rest in
        subst (Writes db) (snd_eq rest') (
          one (
            row-Write k
              (record job { progress = p.percentage; stage = p.stage; message = some p.message })
              job db _ e refl refl refl refl refl))
  ]

start_audit-Write :
    (now : ℕ) (a : AuditModel) (db db' : Db) (k : String)
    → find_audit k db ≡ some a
    → start_audit now a db ≡ ok db'
    → Write db db'
start_audit-Write now a db db' k f h = elim (start_audit-at now a db db' a.status refl h) [
  | inl e ↦ elsewhere (ap (λ d. d.jobs) (sym e)) (ap (λ d. d.audits) (sym e))
  | inr (b, id, allowed, e) ↦ put_audit-Write k b a db db' f id (inr allowed) (sym e)
]

Claiming-Writes :
    (now : ℕ) (worker_id : String) (job : JobModel) (db : Db) (claimed : JobModel) (db' : Db)
    → Claiming now worker_id job db claimed db'
    → Writes db db'
Claiming-Writes now worker_id job db claimed db' c =
    let e = c.entered in
    let (jobs, audits, workers) = lock_resource-tables now worker_id claimed _ _ e.locked in
    let row : Write c.moved_db (put_job claimed c.moved_db) =
      subst (λ j. Write c.moved_db (put_job j c.moved_db)) (sym c.claimed_is)
        (row-Write c.moved_job.id _ c.moved_job c.moved_db _
          (Transition-found job.id job job JobStatus.running _ db c.moved_job c.moved_db
            c.transition)
          refl refl refl refl refl) in
    let locked : Write (put_job claimed c.moved_db) e.locked_db = elsewhere jobs audits in
    then
      (then
        (then
          (one (
            Transition-Write job.id job job JobStatus.running _ db c.moved_job c.moved_db
              c.transition refl))
          row)
        locked)
      (start_audit-Write now e.audit e.locked_db db' claimed.audit_id e.audit_found e.started)

pub claim_next-Writes :
    (now : ℕ) (worker_id : String) (db : Db) (r : Option JobRecord) (db' : Db)
    → Distinct job_key db.jobs
    → claim_next now worker_id db ≡ ok (r, db')
    → Writes db db'
claim_next-Writes now worker_id db r db' d e =
    (claim_next_ind now worker_id rule db r db' d nothing e).1
  where
    rule : Rule now worker_id (Writes db) (λ _ d'. Writes db d')
    rule = record {
      waits = λ job d' w h. then h (mark_waiting-Write now job d' w.0);
      idles = λ d' h. h;
      takes = λ job d' claimed e' w free h c. Writes-trans h (
          Claiming-Writes now worker_id job d' claimed e'
            (claim-Claiming now worker_id job d' claimed e' w.0 c));
    }
