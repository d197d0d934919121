-- ===== src/Jobs/Coherence/Queue.antt =====
-- The transactions of jobs/service.py that do not end a running job, and the agreement of audits with
-- their jobs.
use wirescope.Prelude.{
  ℕ, ap, subst, String, ◌≡◌, refl, sym, ◌∙◌, inl, inr, true, some, arith, Option-cases, Bool-cases,
  str_eq, leb,
}
use wirescope.Result.{snd_eq, ok, guard, >>=-eq-ok}
use wirescope.Jobs.Models.{JobStatus, JobProgress}
use wirescope.Jobs.Steps.{transition_job, add_event, require_job, refresh_audit}
use wirescope.Jobs.Execution.{
  request_cancel, cancel_arm, cancelled_before_start, update_progress, mark_waiting, is_running,
}
use wirescope.Jobs.Records.{JobRecord}
use wirescope.Jobs.Coherence.{IsCoherent, refresh_audit-IsCoherent}
use wirescope.Jobs.Coherence.Moves.{transition_job-Transition, put_job_same-IsCoherent}
use wirescope.Jobs.Coherence.Finish.{Transition-IsCoherentBut}
use wirescope.Persistence.{JobModel, Db, find_job, audit_key}
use wirescope.Table

-- Only the audit rows and the job rows count.
pub same_tables-IsCoherent :
    (db db' : Db) → db'.jobs ≡ db.jobs → db'.audits ≡ db.audits → IsCoherent db → IsCoherent db'
same_tables-IsCoherent db db' jobs audits h k a f =
    rw jobs (h k a (ap (Table.find audit_key k) (sym audits) ∙ f))

pub noted-IsCoherent :
    (now : ℕ) (job : JobModel) (type message : String) (db : Db)
    → IsCoherent db
    → IsCoherent (add_event now job type message db)
unfolding add_event
noted-IsCoherent now job type message db h = h

module _ (now : ℕ) (k : String) (db : Db) (r : JobRecord) (db' : Db) (h : IsCoherent db) where
  cancel_arm-IsCoherent :
      (job : JobModel)
      → find_job k db ≡ some job
      → (s : JobStatus) → cancel_arm s now job db ≡ ok (r, db')
      → IsCoherent db'
  unfolding cancel_arm
  cancel_arm-IsCoherent job e JobStatus.queued c =
      let ((j, moved_db), t, f) =
        >>=-eq-ok
          (transition_job now job JobStatus.cancelled "cancelled" job.progress
            "Queued job cancelled" (some cancelled_before_start) db)
          _ c in
      let (d, hd, g) = >>=-eq-ok (refresh_audit now j.audit_id moved_db) _ f in
      let move =
        transition_job-Transition now k job job _ _ _ _ _ db j moved_db
          (record { found = e; id = refl; audit_id = refl }) t in
      let (others, some_job) =
        Transition-IsCoherentBut k job job JobStatus.cancelled job.progress db j moved_db move h in
      refresh_audit-IsCoherent now j.audit_id moved_db db' others some_job (hd ∙ ap ok (snd_eq g))
  cancel_arm-IsCoherent job e JobStatus.running c = elim (Bool-cases job.cancel_requested) [
    | inl asked ↦ subst IsCoherent (snd_eq (rw asked at c)) h
    | inr fresh ↦ subst IsCoherent (snd_eq (rw fresh at c)) (
        noted-IsCoherent now (record job { cancel_requested = true }) _ _ _
          (put_job_same-IsCoherent k (record job { cancel_requested = true }) job db
            (record { found = e; id = refl; audit_id = refl }) refl h))
  ]
  cancel_arm-IsCoherent job e _ c = subst IsCoherent (snd_eq c) h

  -- Where every audit agrees with its jobs, a call of request_cancel that returns leaves them in
  -- agreement, whatever the status of the job is.
  pub request_cancel-IsCoherent : request_cancel now k db ≡ ok (r, db') → IsCoherent db'
  unfolding request_cancel require_job
  request_cancel-IsCoherent c = elim (Option-cases (find_job k db)) [
    | inl e ↦ ground arith
    | inr (job, e) ↦ cancel_arm-IsCoherent job e job.status (rw e at c)
  ]

  pub update_progress-IsCoherent :
      (p : JobProgress) → update_progress now k p db ≡ ok (r, db') → IsCoherent db'
  unfolding update_progress require_job
  update_progress-IsCoherent p c = elim (Option-cases (find_job k db)) [
    | inl e ↦ ground arith
    | inr (job, e) ↦
        let (d, hd, rest) = >>=-eq-ok (guard (is_running job.status) _) _ (rw e at c) in
        let (d', hd', rest') = >>=-eq-ok (guard (leb job.progress p.percentage) _) _ rest in
        let job' : JobModel = record job {
          progress = p.percentage;
          stage = p.stage;
          message = some p.message;
        } in
        subst IsCoherent (snd_eq rest') (
          noted-IsCoherent now job' _ _ _ (
            put_job_same-IsCoherent k job' job db (record { found = e; id = refl; audit_id = refl })
              refl h))
  ]

-- What `claim_from` leaves of a job that has to wait.
pub mark_waiting-IsCoherent :
    (now : ℕ) (k : String) (job : JobModel) (db : Db)
    → find_job k db ≡ some job
    → IsCoherent db
    → IsCoherent (mark_waiting now job db)
unfolding mark_waiting
mark_waiting-IsCoherent now k job db e h = elim (Bool-cases (str_eq job.stage "resource_wait")) [
  | inl w ↦ rw w h
  | inr w ↦ rw w (
      noted-IsCoherent now _ _ _ _ (
        put_job_same-IsCoherent k _ job db (record { found = e; id = refl; audit_id = refl }) refl
          h))
]
