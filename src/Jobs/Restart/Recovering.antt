-- ===== src/Jobs/Restart/Recovering.antt =====
-- `recover_after_restart` (jobs/service.py), whole.
use wirescope.Prelude.{
  ℕ, ap, subst, String, ◌≡◌, refl, sym, ◌∙◌, inl, inr, true, false, none, some, List, [], ◌∷◌,
  arith, str_eq, All, All-keep, All-map, Bool-cases, Option-cases, keep, is_some, length, map,
}
use wirescope.Result.{ok}
use wirescope.Jobs.Models.{JobStatus}
use wirescope.Jobs.Statuses.{statuses-Split}
use wirescope.Jobs.Steps.{is_nil}
use wirescope.Jobs.Supervision.{
  runs, audit_ids, stop_workers, recover_running, recover_after_restart,
}
use wirescope.Jobs.Coherence.{IsCoherent}
use wirescope.Jobs.Coherence.Moves.{is_nil-middle}
use wirescope.Jobs.Coherence.Create.{IsOwned}
use wirescope.Jobs.Liveness.{running_audit}
use wirescope.Jobs.Restart.Interrupting.{Runs, AllInterrupted, interrupt_all-AllInterrupted}
use wirescope.Jobs.Restart.Refreshing.{
  Pending, IsCoherentExcept, AllRefreshed, Pending-AllRefreshed, audit_ids-All, audit_ids-Distinct,
  audit_ids-absent,
}
use wirescope.Jobs.Writes.{Write, Writes, elsewhere, then, Writes-trans}
use wirescope.Persistence.{
  JobModel, WorkerModel, stopped, Db, find_audit, find_job, audit_key, job_key,
}
use wirescope.Table
use wirescope.Table.Keys.{Distinct, Distinct-find, Distinct-keep}

-- The store after a recovery: it returned the number of jobs that ran, none runs now, no resource is
-- locked, every worker is stopped without a job, and audits and jobs agree.
pub record Recovered (now : ℕ) (db : Db) : Type 0 where
  pub after : Db
  pub returns : recover_after_restart now db ≡ ok (length (keep runs db.jobs), after)
  pub none_runs : (k : String) (j : JobModel) → find_job k after ≡ some j → runs j ≡ false
  pub unlocked : after.locks ≡ []
  pub all_stopped : All (λ w. (w.status ≡ stopped) × (w.current_job_id ≡ none)) after.workers
  pub coherent : IsCoherent after
  pub writes : Writes db after

find-keep :
    (k : String) (j : JobModel) (js : List JobModel)
    → Table.find job_key k js ≡ some j
    → runs j ≡ true
    → Table.find job_key k (keep runs js) ≡ some j
unfolding Table.find
find-keep k j [] f r = cc
find-keep k j (i ∷ js) f r = elim (Bool-cases (str_eq i.id k)) [
  | inl e ↦ ground (arith, e, f, r)
  | inr e ↦ elim (Bool-cases (runs i)) [
    | inl q ↦ rw (q, e) (find-keep k j js (rw e at f) r)
    | inr q ↦ rw q (find-keep k j js (rw e at f) r)
  ]
]

runs→eq : (j : JobModel) → runs j ≡ true → j.status ≡ JobStatus.running
runs→eq j h = ground arith

All-runs : (js : List JobModel) → All (λ j. j.status ≡ JobStatus.running) (keep runs js)
All-runs [] = tt
All-runs (j ∷ js) = elim (Bool-cases (runs j)) [
  | inl e ↦ rw e (runs→eq j e, All-runs js)
  | inr e ↦ rw e (All-runs js)
]

All-with :
    (P Q : JobModel → Type 0) (js : List JobModel) → All P js → All Q js → All (λ j. P j × Q j) js
All-with P Q [] p q = tt
All-with P Q (j ∷ js) p q = ((p.0, q.0), All-with P Q js p.1 q.1)

workers_stopped :
    (ws : List WorkerModel)
    → All
        (λ w. (w.status ≡ stopped) × (w.current_job_id ≡ none))
        (map (λ (w : WorkerModel). record w { status = stopped; current_job_id = none }) ws)
workers_stopped [] = tt
workers_stopped (w ∷ ws) = ((refl, refl), workers_stopped ws)

module _ (now : ℕ) (db : Db) (distinct : Distinct job_key db.jobs) (owned : IsOwned db)
    (h : IsCoherent db) where
  abbrev running_jobs : List JobModel
  running_jobs = keep runs db.jobs

  running_rows : All (Runs db) running_jobs
  running_rows =
      All-with _ _ running_jobs (All-keep _ runs db.jobs (Distinct-find job_key db.jobs distinct))
        (All-runs db.jobs)

  interrupted : AllInterrupted now running_jobs db
  interrupted =
      interrupt_all-AllInterrupted now running_jobs db (Distinct-keep job_key runs db.jobs distinct)
        running_rows (λ k j f r. find-keep k j db.jobs f r)

  abbrev cleared : Db
  cleared = stop_workers (record interrupted.after { locks = [] })

  cleared-Write : Write interrupted.after cleared
  unfolding stop_workers
  cleared-Write = elsewhere refl refl

  -- The audit of a job that ran pends.
  pends :
      (j : JobModel)
      → Runs db j × (is_some (find_audit j.audit_id db) ≡ true)
      → Pending cleared j.audit_id
  unfolding stop_workers
  pends j ((found, r), there) = elim (Option-cases (find_audit j.audit_id db)) [
    | inl e ↦ ground arith
    | inr (a, e) ↦
        let s = statuses-Split j.audit_id j j refl db.jobs found refl in
        (
          (
            a,
            ap (Table.find audit_key j.audit_id) interrupted.audits ∙ e,
            running_audit j.id db j a h found r e,
          ),
          interrupted.same_emptiness j.audit_id
              ∙ ap is_nil s.was
              ∙ is_nil-middle s.before s.after j.status,
        )
  ]

  others_agree : IsCoherentExcept (audit_ids running_jobs) cleared
  unfolding stop_workers
  others_agree k a absent f =
      rw (interrupted.same_statuses k (audit_ids-absent k running_jobs absent))
        (h k a (sym (ap (Table.find audit_key k) interrupted.audits) ∙ f))

  refreshed_all : AllRefreshed now (audit_ids running_jobs) cleared
  refreshed_all =
      Pending-AllRefreshed now (audit_ids running_jobs) cleared (audit_ids-Distinct running_jobs)
        (audit_ids-All (Pending cleared) running_jobs (
          All-map _ _ running_jobs pends
            (All-with _ _ running_jobs running_rows (All-keep _ runs db.jobs owned))))
        others_agree

  -- In a database with distinct job identifiers, an audit for every job, and audits that agree with
  -- their jobs, recover_after_restart returns the number of jobs that ran; then no job runs, no
  -- resource is locked, every worker is stopped without a job, and audits and jobs agree.
  pub recover_after_restart-Recovered : Recovered now db
  unfolding recover_after_restart recover_running stop_workers
  recover_after_restart-Recovered = record {
    after = refreshed_all.after;
    returns = rw (interrupted.returns) (rw (refreshed_all.returns) refl);
    none_runs =
        λ k j f. interrupted.none_runs k j (sym (ap (Table.find job_key k) refreshed_all.jobs) ∙ f);
    unlocked = refreshed_all.locks;
    all_stopped =
        subst (λ ws. All (λ w. (w.status ≡ stopped) × (w.current_job_id ≡ none)) ws)
          (sym refreshed_all.workers) (workers_stopped interrupted.after.workers);
    coherent = refreshed_all.coherent;
    writes = Writes-trans (then interrupted.writes cleared-Write) refreshed_all.writes;
  }
