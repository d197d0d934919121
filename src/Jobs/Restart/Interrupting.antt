-- ===== src/Jobs/Restart/Interrupting.antt =====
-- The first loop of `_recover_running` (jobs/service.py): every job that runs is interrupted.
use Prim.Native.String.{◌++◌ as append}
use wirescope.Prelude.{
  ℕ, ap, subst, String, ◌≡◌, ◌≢◌, refl, sym, ◌∙◌, inl, inr, true, false, some, List, [], ◌∷◌, arith,
  eq_iff, All, Bool-cases, text-cases,
}
use wirescope.Result.{ok}
use wirescope.Jobs.Models.{JobStatus, status_value}
use wirescope.Jobs.State.{job_transitions}
use wirescope.Jobs.Statuses.{statuses-Split, statuses-replace_ne}
use wirescope.Jobs.Steps.{statuses, is_nil, moved, transition_job, add_event}
use wirescope.Jobs.Supervision.{interrupt_all, application_restart, runs}
use wirescope.Jobs.Coherence.Moves.{
  Transition, transition_job-Transition, find-row, put_job-some, is_nil-middle,
}
use wirescope.Jobs.Liveness.{transition_job-ok}
use wirescope.Jobs.Writes.{Writes, nothing, Writes-trans}
use wirescope.Jobs.Writes.Transactions.{one, Transition-Write}
use wirescope.Persistence.{JobModel, Db, find_job, job_key, put_job}
use wirescope.Table
use wirescope.Table.Keys.{Fresh, Distinct}

-- The row in the table, which runs.
abbrev pub Runs : Db → JobModel → Type 0
Runs db j = (find_job j.id db ≡ some j) × (j.status ≡ JobStatus.running)

-- Every row that runs is one of these.
abbrev pub OnlyThese : List JobModel → Db → Type 0
OnlyThese js db =
    (k : String) (j : JobModel)
    → find_job k db ≡ some j
    → runs j ≡ true
    → Table.find job_key k js ≡ some j

-- The loop ends, nothing runs, and what else it may have changed.
pub record AllInterrupted (now : ℕ) (js : List JobModel) (db : Db) : Type 0 where
  pub after : Db
  pub returns : interrupt_all now js db ≡ ok after
  pub none_runs : (k : String) (j : JobModel) → find_job k after ≡ some j → runs j ≡ false
  pub same_statuses :
      (k : String) → All (λ j. j.audit_id ≢ k) js → statuses k after.jobs ≡ statuses k db.jobs
  pub same_emptiness : (k : String) → is_nil (statuses k after.jobs) ≡ is_nil (statuses k db.jobs)
  pub audits : after.audits ≡ db.audits
  pub writes : Writes db after
  pub workers : after.workers ≡ db.workers

none_of_nothing :
    (db : Db)
    → OnlyThese [] db
    → (k : String) (j : JobModel) → find_job k db ≡ some j
    → runs j ≡ false
unfolding Table.find
none_of_nothing db only k j f = elim (Bool-cases (runs j)) [
  | inl e ↦ ground (arith, only k j f e)
  | inr e ↦ e
]

Runs-kept :
    (db d : Db) (js : List JobModel)
    → All (λ j. find_job j.id d ≡ find_job j.id db) js
    → All (Runs db) js
    → All (Runs d) js
Runs-kept db d [] same h = tt
Runs-kept db d (j ∷ js) same h = ((same.0 ∙ h.0.0, h.0.1), Runs-kept db d js same.1 h.1)

may_interrupt : job_transitions JobStatus.running JobStatus.interrupted ≡ true
unfolding job_transitions
may_interrupt = refl

module _ (now : ℕ) (job : JobModel) (db : Db) (there : Runs db job) where
  abbrev stopped_job : JobModel
  stopped_job =
      moved now job JobStatus.interrupted "interrupted" job.progress
        "Application restarted during execution" (some application_restart)

  abbrev stopped_db : Db
  stopped_db =
      add_event now stopped_job (append "job_" (status_value JobStatus.interrupted))
        "Application restarted during execution" (put_job stopped_job db)

  stops :
      transition_job now job JobStatus.interrupted "interrupted" job.progress
        "Application restarted during execution"
        (some application_restart)
        db
      ≡ ok (stopped_job, stopped_db)
  stops =
      transition_job-ok now job JobStatus.interrupted "interrupted" job.progress
        "Application restarted during execution" (some application_restart) db
        (rw (there.1) may_interrupt)

  stopping : Transition job.id job job JobStatus.interrupted job.progress db stopped_job stopped_db
  stopping =
      transition_job-Transition now job.id job job _ _ _ _ _ db stopped_job stopped_db
        (record { found = there.0; id = refl; audit_id = refl }) stops

  stopped_others : (k : String) → job.id ≢ k → find_job k stopped_db ≡ find_job k db
  stopped_others k n =
      ap (Table.find job_key k) stopping.jobs
      ∙ Table.find-replace_ne job_key stopped_job k db.jobs (λ e. n (sym stopping.row.id ∙ e))

  stopped_only : (js : List JobModel) → OnlyThese (job ∷ js) db → OnlyThese js stopped_db
  unfolding Table.find
  stopped_only js only k j f r =
      elim (Table.find-replace-inv job_key stopped_job j k db.jobs
        (ap (Table.find job_key k) (sym stopping.jobs) ∙ f)) [
          | inl (key, e, was) ↦ ground (arith, ap (λ x. x.status) e, stopping.status)
          | inr (differs, g) ↦
              ground (arith, only k j g r, eq_iff job.id k, stopping.row.id, differs)
        ]

  stopped_statuses :
      (k : String) → job.audit_id ≢ k → statuses k stopped_db.jobs ≡ statuses k db.jobs
  stopped_statuses k n =
      ap (statuses k) stopping.jobs
      ∙ statuses-replace_ne k stopped_job job stopping.row.audit_id db.jobs
          (find-row job.id stopped_job job db stopping.row) n

  stopped_emptiness :
      (k : String) → is_nil (statuses k stopped_db.jobs) ≡ is_nil (statuses k db.jobs)
  stopped_emptiness k = elim (text-cases job.audit_id k) [
    | inl e ↦ subst (λ i. is_nil (statuses i stopped_db.jobs) ≡ is_nil (statuses i db.jobs)) e own
    | inr n ↦ ap is_nil (stopped_statuses k n)
  ]
    where
      own : is_nil (statuses job.audit_id stopped_db.jobs) ≡ is_nil (statuses job.audit_id db.jobs)
      own =
          let s = statuses-Split job.audit_id job job refl db.jobs there.0 refl in
          ap (λ t. is_nil (statuses job.audit_id t)) stopping.jobs
          ∙ put_job-some job.id stopped_job job db stopping.row
          ∙ sym (ap is_nil s.was ∙ is_nil-middle s.before s.after job.status)

pub interrupt_all-AllInterrupted :
    (now : ℕ) (js : List JobModel) (db : Db)
    → Distinct job_key js
    → All (Runs db) js
    → OnlyThese js db
    → AllInterrupted now js db
unfolding interrupt_all
interrupt_all-AllInterrupted now [] db d h only = record {
  after = db;
  returns = refl;
  none_runs = none_of_nothing db only;
  same_statuses = λ k a. refl;
  same_emptiness = λ k. refl;
  audits = refl;
  workers = refl;
  writes = nothing;
}
interrupt_all-AllInterrupted now (job ∷ js) db (fresh, distinct) (there, h) only =
    let d = stopped_db now job db there in
    let t = stopping now job db there in
    let rest =
      interrupt_all-AllInterrupted now js d distinct (Runs-kept db d js (others js fresh) h)
        (stopped_only now job db there js only) in
    record {
      after = rest.after;
      returns = rw (stops now job db there) rest.returns;
      none_runs = rest.none_runs;
      same_statuses = λ k a. rest.same_statuses k a.1 ∙ stopped_statuses now job db there k a.0;
      same_emptiness = λ k. rest.same_emptiness k ∙ stopped_emptiness now job db there k;
      audits = rest.audits ∙ t.audits;
      workers = rest.workers ∙ t.workers;
      writes =
          Writes-trans
            (one (Transition-Write job.id job job JobStatus.interrupted job.progress db _ d t refl))
            rest.writes;
    }
  where
    others :
        (ks : List JobModel)
        → Fresh job_key job.id ks
        → All (λ j. find_job j.id (stopped_db now job db there) ≡ find_job j.id db) ks
    others [] f = tt
    others (j ∷ ks) f = (stopped_others now job db there j.id f.0, others ks f.1)
