-- ===== src/Jobs/Coherence/Claims.antt =====
-- `claim_next` (jobs/service.py), whole, and the agreement of audits with their jobs.
use wirescope.Prelude.{ℕ, ◌+◌, ap, subst, String, ◌≡◌, refl, sym, ◌∙◌, true, Option, some, any}
use wirescope.Result.{ok}
use wirescope.Jobs.Models.{JobStatus}
use wirescope.Jobs.Statuses.{statuses-Split, statuses-replace_same}
use wirescope.Jobs.Steps.{statuses, is_active}
use wirescope.Jobs.Execution.{claim_next}
use wirescope.Jobs.Records.{JobRecord}
use wirescope.Jobs.Claiming.{Rule, claim_next_ind}
use wirescope.Jobs.Coherence.{IsCoherent, IsCoherentBut}
use wirescope.Jobs.Coherence.Moves.{find-row, Transition}
use wirescope.Jobs.Coherence.Finish.{Transition-IsCoherentBut}
use wirescope.Jobs.Coherence.Queue.{mark_waiting-IsCoherent}
use wirescope.Jobs.Coherence.Claim.{
  agrees-active, any_active-middle, start_audit-IsCoherent, lock_resource-tables, Claiming,
  claim-Claiming,
}
use wirescope.Persistence.{JobModel, Db, find_audit, find_job, job_key, audit_key}
use wirescope.Table
use wirescope.Table.Keys.{Distinct}

-- A moved row is found as it was written.
pub Transition-found :
    (k : String) (job old : JobModel) (desired : JobStatus) (progress : ℕ) (db : Db) (j : JobModel)
    (db' : Db)
    → Transition k job old desired progress db j db'
    → find_job j.id db' ≡ some j
Transition-found k job old desired progress db j db' t =
    rw t.jobs (Table.find-replace_self job_key j old j.id db.jobs (find-row k j old db t.row) refl)

module _ (now : ℕ) (worker_id : String) (job : JobModel) (db : Db) (claimed : JobModel) (db' : Db)
    (queued : job.status ≡ JobStatus.queued) (found : find_job job.id db ≡ some job)
    (h : IsCoherent db) (c : Claiming now worker_id job db claimed db') where
  locked_statuses : (a : String) → statuses a c.entered.locked_db.jobs ≡ statuses a c.moved_db.jobs
  locked_statuses a =
      rw ((lock_resource-tables now worker_id claimed _ _ c.entered.locked).0, c.claimed_is)
        (statuses-replace_same a
          (record c.moved_job { worker_id = some worker_id; attempt = c.moved_job.attempt + 1 })
          c.moved_job refl c.moved_db.jobs
          (Transition-found job.id job job JobStatus.running _ db c.moved_job c.moved_db
            c.transition)
          refl)

  locked_audits : c.entered.locked_db.audits ≡ db.audits
  locked_audits =
      (lock_resource-tables now worker_id claimed _ _ c.entered.locked).1 ∙ c.transition.audits

  claimed_audit : claimed.audit_id ≡ job.audit_id
  claimed_audit = ap (λ r. r.audit_id) c.claimed_is ∙ c.transition.row.audit_id

  moved_audit : claimed.audit_id ≡ c.moved_job.audit_id
  moved_audit = ap (λ r. r.audit_id) c.claimed_is

  was_active : any is_active (statuses job.audit_id db.jobs) ≡ true
  was_active =
      let s = statuses-Split job.audit_id job job refl db.jobs found refl in
      rw s.was (any_active-middle s.before s.after job.status (rw queued))

  now_active : any is_active (statuses job.audit_id c.entered.locked_db.jobs) ≡ true
  now_active =
      let s =
        statuses-Split job.audit_id c.moved_job job c.transition.row.audit_id db.jobs
          (find-row job.id c.moved_job job db c.transition.row) refl in
      rw (locked_statuses job.audit_id, c.transition.jobs, s.is)
        (any_active-middle s.before s.after c.moved_job.status (rw c.transition.status))

  found_before : find_audit job.audit_id db ≡ some c.entered.audit
  found_before =
      ap (Table.find audit_key job.audit_id) (sym locked_audits)
      ∙ ap (λ k. find_audit k c.entered.locked_db) (sym claimed_audit)
      ∙ c.entered.audit_found

  others : IsCoherentBut claimed.audit_id c.entered.locked_db
  others k a n f =
      let (but, some_job) =
        Transition-IsCoherentBut job.id job job JobStatus.running _ db c.moved_job c.moved_db
          c.transition h in
      rw (locked_statuses k) (
        but k a (λ p. n (moved_audit ∙ p))
          (ap (Table.find audit_key k) (c.transition.audits ∙ sym locked_audits) ∙ f))

  Claiming-IsCoherent : IsCoherent db'
  Claiming-IsCoherent =
      start_audit-IsCoherent now claimed.audit_id c.entered.audit c.entered.locked_db db'
        c.entered.audit_found
        (agrees-active c.entered.audit.status (statuses job.audit_id db.jobs) was_active
          (h job.audit_id c.entered.audit found_before))
        (subst (λ k. any is_active (statuses k c.entered.locked_db.jobs) ≡ true) (sym claimed_audit)
          now_active)
        others c.entered.started

IsCoherent-Rule :
    (now : ℕ) (worker_id : String) → Rule now worker_id IsCoherent (λ _ db'. IsCoherent db')
IsCoherent-Rule now worker_id = record {
  waits = λ job db w h. mark_waiting-IsCoherent now job.id job db w.0 h;
  idles = λ db h. h;
  takes = λ job db claimed db' w free h c.
      Claiming-IsCoherent now worker_id job db claimed db' w.1 w.0 h
        (claim-Claiming now worker_id job db claimed db' w.0 c);
}

-- Where the job identifiers are distinct and every audit agrees with its jobs, a call of claim_next
-- that returns, whether or not it claims a job and whatever jobs it makes wait, leaves every audit
-- in agreement with its jobs.
pub claim_next-IsCoherent :
    (now : ℕ) (worker_id : String) (db : Db) (r : Option JobRecord) (db' : Db)
    → Distinct job_key db.jobs
    → IsCoherent db
    → claim_next now worker_id db ≡ ok (r, db')
    → IsCoherent db'
claim_next-IsCoherent now worker_id db r db' d h e =
    (claim_next_ind now worker_id (IsCoherent-Rule now worker_id) db r db' d h e).1
