-- ===== src/Jobs/Progress.antt =====
-- `update_progress` (jobs/service.py).
use wirescope.Prelude.{
  ℕ, ◌≤◌, String, ◌≡◌, refl, true, some, arith, leb, inl, inr, Option-cases, subst,
}
use wirescope.Result.{ok, >>=-eq-ok, guard, guard-eq-ok, snd_eq}
use wirescope.Jobs.Models.{JobStatus, JobProgress}
use wirescope.Jobs.Steps.{require_job, add_event}
use wirescope.Jobs.Execution.{update_progress, is_running}
use wirescope.Jobs.Records.{JobRecord}
use wirescope.Persistence.{JobModel, Db, find_job, job_key}
use wirescope.Table

-- The job was running and at most so far, and is now exactly as far as was reported.
pub record Progressed (k : String) (p : JobProgress) (db db' : Db) : Type 0 where
  pub was : JobModel
  pub found : find_job k db ≡ some was
  pub running : was.status ≡ JobStatus.running
  pub forward : was.progress ≤ p.percentage
  pub now_found :
      find_job k db'
      ≡ some (record was { progress = p.percentage; stage = p.stage; message = some p.message })
  pub same_locks : db'.locks ≡ db.locks
  pub same_audits : db'.audits ≡ db.audits

is_running→eq : (s : JobStatus) → is_running s ≡ true → s ≡ JobStatus.running
is_running→eq s h = ground arith

-- A call of update_progress that returns was about a running job whose progress was at most the
-- reported one; the row of the job then shows exactly the report and is otherwise as it was, and
-- locks and audits are as before.
pub update_progress-moves :
    (now : ℕ) (k : String) (p : JobProgress) (db : Db) (r : JobRecord) (db' : Db)
    → update_progress now k p db ≡ ok (r, db')
    → Progressed k p db db'
unfolding update_progress require_job add_event
update_progress-moves now k p db r db' c = elim (Option-cases (find_job k db)) [
  | inl e ↦ ground arith
  | inr (job, e) ↦
      let (d, hd, rest) = >>=-eq-ok (guard (is_running job.status) _) _ (rw e at c) in
      let (d', hd', rest') = >>=-eq-ok (guard (leb job.progress p.percentage) _) _ rest in
      let done = snd_eq rest' in
      let forward = guard-eq-ok (leb job.progress p.percentage) _ d' hd' in
      record {
        was = job;
        found = e;
        running = is_running→eq job.status (guard-eq-ok (is_running job.status) _ d hd);
        forward = ground (arith, forward);
        now_found =
            subst
              (λ x.
                find_job k x
                ≡ some (record job {
                  progress = p.percentage;
                  stage = p.stage;
                  message = some p.message;
                }))
              done
              (Table.find-replace_self job_key _ job k db.jobs e
                (Table.key-find job_key k db.jobs job e));
        same_locks = subst (λ x. x.locks ≡ db.locks) done refl;
        same_audits = subst (λ x. x.audits ≡ db.audits) done refl;
      }
]
