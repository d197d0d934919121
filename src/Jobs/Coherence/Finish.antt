-- ===== src/Jobs/Coherence/Finish.antt =====
-- The transactions that end a job (jobs/service.py), and the agreement of audits with their jobs.
use wirescope.Prelude.{
  ℕ, ap, String, ◌≡◌, refl, ◌∙◌, inl, inr, false, Option, none, some, arith, Option-cases,
}
use wirescope.Result.{snd_eq, ok, >>=-eq-ok}
use wirescope.Json.{Dict}
use wirescope.Jobs.Models.{JobStatus, JobError}
use wirescope.Jobs.Steps.{
  statuses, transition_job, is_nil, release_lock, require_job, refresh_audit,
}
use wirescope.Jobs.Execution.{
  merge_summary, finish, complete_job, fail_job, cancel_running_job, cancelled_error, or_kept,
  non_empty,
}
use wirescope.Jobs.Records.{JobRecord}
use wirescope.Jobs.Coherence.{IsCoherent, IsCoherentBut, refresh_audit-IsCoherent}
use wirescope.Jobs.Coherence.Moves.{
  Transition, transition_job-Transition, put_job-IsCoherentBut, put_job-some,
  merge_summary-IsCoherentBut,
}
use wirescope.Persistence.{JobModel, Db, find_job}

-- What a finished transaction did after the move: it merged, and then refreshed.
pub finish-inv :
    (now : ℕ) (job : JobModel) (summary : Option Dict) (db : Db) (r : JobRecord) (db' : Db)
    → finish now job summary db ≡ ok (r, db')
    → (m : Db) × (merge_summary job.audit_id summary (release_lock job.id db) ≡ ok m)
      × (refresh_audit now job.audit_id m ≡ ok db')
unfolding finish
finish-inv now job summary db r db' h =
    let (m, hm, rest) =
      >>=-eq-ok (merge_summary job.audit_id summary (release_lock job.id db)) _ h in
    let (d, hd, e) = >>=-eq-ok (refresh_audit now job.audit_id m) _ rest in
    (m, hm, hd ∙ ap ok (snd_eq e))

-- The end of a transaction that finished a job restores the agreement.
pub finish-IsCoherent :
    (now : ℕ) (job : JobModel) (summary : Option Dict) (db : Db) (r : JobRecord) (db' : Db)
    → IsCoherentBut job.audit_id db
    → is_nil (statuses job.audit_id db.jobs) ≡ false
    → finish now job summary db ≡ ok (r, db')
    → IsCoherent db'
unfolding release_lock
finish-IsCoherent now job summary db r db' others some_job h =
    let (m, hm, hd) = finish-inv now job summary db r db' h in
    let (others', jobs, locks) =
      merge_summary-IsCoherentBut job.audit_id job.audit_id summary (release_lock job.id db) m hm
        others in
    refresh_audit-IsCoherent now job.audit_id m db' others' (rw jobs some_job) hd

-- A job that moves leaves all but its own audit in agreement.
pub Transition-IsCoherentBut :
    (k : String) (job old : JobModel) (desired : JobStatus) (progress : ℕ) (db : Db) (j : JobModel)
    (db' : Db)
    → Transition k job old desired progress db j db'
    → IsCoherent db
    → IsCoherentBut j.audit_id db' × (is_nil (statuses j.audit_id db'.jobs) ≡ false)
Transition-IsCoherentBut k job old desired progress db j db' t h =
    rw (t.row.audit_id, t.jobs, t.audits)
      (put_job-IsCoherentBut k j old db t.row h, put_job-some k j old db t.row)

-- What each of the three transactions does: find the row, move it, finish.
pub record Finishing (now : ℕ) (k : String) (desired : JobStatus) (summary : Option Dict) (db : Db)
    (r : JobRecord) (db' : Db) : Type 0 where
  pub job : JobModel
  pub old : JobModel
  pub progress : ℕ
  pub same_status : job.status ≡ old.status
  pub moved_job : JobModel
  pub moved_db : Db
  pub transition : Transition k job old desired progress db moved_job moved_db
  pub finished : finish now moved_job summary moved_db ≡ ok (r, db')

module _ (now : ℕ) (k : String) (db : Db) (r : JobRecord) (db' : Db) where
  pub Finishing-IsCoherent :
      (desired : JobStatus) (summary : Option Dict)
      → Finishing now k desired summary db r db'
      → IsCoherent db
      → IsCoherent db'
  Finishing-IsCoherent desired summary f h =
      let (others, some_job) =
        Transition-IsCoherentBut k f.job f.old desired f.progress db f.moved_job f.moved_db
          f.transition h in
      finish-IsCoherent now f.moved_job summary f.moved_db r db' others some_job f.finished

  pub complete_job-Finishing :
      (result_reference : Option String) (summary : Option Dict)
      → complete_job now k result_reference summary db ≡ ok (r, db')
      → Finishing now k JobStatus.completed summary db r db'
  unfolding complete_job require_job
  complete_job-Finishing ref summary h = elim (Option-cases (find_job k db)) [
    | inl e ↦ ground arith
    | inr (old, e) ↦
        let job : JobModel = record old { result_reference = ref } in
        let ((j, moved_db), t, f) =
          >>=-eq-ok
            (transition_job now job JobStatus.completed "completed" 100 "Job completed" none db) _
            (rw e at h) in
        record {
          job = job;
          old = old;
          progress = 100;
          same_status = refl;
          moved_job = j;
          moved_db = moved_db;
          transition =
              transition_job-Transition now k job old _ _ _ _ _ db j moved_db
                (record { found = e; id = refl; audit_id = refl }) t;
          finished = f;
        }
  ]

  pub fail_job-Finishing :
      (error : JobError)
      → fail_job now k error db ≡ ok (r, db')
      → Finishing now k JobStatus.failed none db r db'
  unfolding fail_job require_job
  fail_job-Finishing error h = elim (Option-cases (find_job k db)) [
    | inl e ↦ ground arith
    | inr (old, e) ↦
        let ((j, moved_db), t, f) =
          >>=-eq-ok
            (transition_job now old JobStatus.failed "failed" old.progress error.message
              (some error) db)
            _ (rw e at h) in
        record {
          job = old;
          old = old;
          progress = old.progress;
          same_status = refl;
          moved_job = j;
          moved_db = moved_db;
          transition =
              transition_job-Transition now k old old _ _ _ _ _ db j moved_db
                (record { found = e; id = refl; audit_id = refl }) t;
          finished = f;
        }
  ]

  pub cancel_running_job-Finishing :
      (message : String) (result_reference : Option String) (summary : Option Dict)
      → cancel_running_job now k message result_reference summary db ≡ ok (r, db')
      → Finishing now k JobStatus.cancelled (non_empty summary) db r db'
  unfolding cancel_running_job require_job
  cancel_running_job-Finishing message ref summary h = elim (Option-cases (find_job k db)) [
    | inl e ↦ ground arith
    | inr (old, e) ↦
        let job : JobModel = record old { result_reference = or_kept ref old.result_reference } in
        let ((j, moved_db), t, f) =
          >>=-eq-ok
            (transition_job now job JobStatus.cancelled "cancelled" old.progress message
              (some (cancelled_error message)) db)
            _ (rw e at h) in
        record {
          job = job;
          old = old;
          progress = old.progress;
          same_status = refl;
          moved_job = j;
          moved_db = moved_db;
          transition =
              transition_job-Transition now k job old _ _ _ _ _ db j moved_db
                (record { found = e; id = refl; audit_id = refl }) t;
          finished = f;
        }
  ]
