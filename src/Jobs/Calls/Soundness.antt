-- ===== src/Jobs/Calls/Soundness.antt =====
-- Any sequence of calls of the job system: what it may write, and in what state it leaves the tables.
use wirescope.Prelude.{
  ℕ, subst, String, ◌≡◌, refl, sym, ◌∙◌, true, Option, none, some, List, [], ◌∷◌, arith, not, ltb,
  count, ◌&&◌,
}
use wirescope.Result.{Result, ok, err, guard, >>=-eq-ok, snd_eq, worker_already_running}
use wirescope.Json.{Dict}
use wirescope.Jobs.Models.{JobStatus, terminal}
use wirescope.Jobs.Service.{commit, create_audit, create_job, set_environment_reference}
use wirescope.Jobs.Execution.{
  request_cancel, claim_next, update_progress, complete_job, fail_job, cancel_running_job,
  non_empty,
}
use wirescope.Jobs.Supervision.{
  recover_after_restart, recover_running, prepare_supervisor, register_worker, heartbeat_worker,
  is_fresh, is_alive,
}
use wirescope.Jobs.Recovery.{retry}
use wirescope.Jobs.Coherence.{IsCoherent}
use wirescope.Jobs.Coherence.Create.{create_audit-IsCoherent, create_job-IsCoherent}
use wirescope.Jobs.Coherence.Claims.{claim_next-IsCoherent}
use wirescope.Jobs.Coherence.Finish.{
  Finishing, Finishing-IsCoherent, complete_job-Finishing, fail_job-Finishing,
  cancel_running_job-Finishing,
}
use wirescope.Jobs.Coherence.Queue.{
  request_cancel-IsCoherent, update_progress-IsCoherent, same_tables-IsCoherent,
}
use wirescope.Jobs.Coherence.Retry.{retry-IsCoherent}
use wirescope.Jobs.Writes.{
  Writes, Writes-IsStored, Writes-trans, Later, Writes-Later, PathOf-terminal, stays, elsewhere,
  nothing,
}
use wirescope.Jobs.Writes.Transactions.{
  one, Finishing-Writes, request_cancel-Writes, update_progress-Writes, claim_next-Writes,
}
use wirescope.Jobs.Writes.Creation.{
  create_audit-Writes, set_environment_reference-Writes, create_job-Writes, retry-Writes,
}
use wirescope.Jobs.Restart.Recovering.{recover_after_restart-Recovered}
use wirescope.Persistence.{JobModel, Db, WorkerStatus, empty_db, find_job}
use wirescope.Jobs.Records.{JobRecord, AuditRecord}
use wirescope.Jobs.Steps.{require_audit}
use wirescope.Jobs.Coherence.Claim.{require_audit-inv}
use wirescope.Jobs.Coherence.Moves.{put_audit-IsCoherent}
use wirescope.Table
use wirescope.Jobs.Calls.{
  Call, call, run, kept, IsSound, creates_audit, sets_environment, creates_job, cancels, claims,
  reports, completes, fails, stops, recovers, prepares, registers, beats, retries,
}

-- What a call keeps: it writes as a transaction may, and leaves audits in agreement.
abbrev Good : Db → Db → Type 0
Good db d = Writes db d × IsCoherent d

committed :
    {A : Type 0} (db : Db) (result : Result (A × Db))
    → IsCoherent db
    → ((a : A) (d : Db) → result ≡ ok (a, d) → Good db d)
    → Good db (commit db result)
committed db (ok (a, d)) h f = f a d refl
committed db (err e) h f = (nothing, h)

finished :
    (now : ℕ) (k : String) (desired : JobStatus) (summary : Option Dict) (db : Db) (r : JobRecord)
    (d : Db)
    → IsCoherent db
    → Finishing now k desired summary db r d
    → Good db d
finished now k desired summary db r d h f = (
  Finishing-Writes now k desired summary db r d f,
  Finishing-IsCoherent now k db r d desired summary f h,
)

-- Calls that touch neither jobs nor audits.
elsewhere-Good : (db d : Db) → d.jobs ≡ db.jobs → d.audits ≡ db.audits → IsCoherent db → Good db d
elsewhere-Good db d jobs audits h =
    (one (elsewhere jobs audits), same_tables-IsCoherent db d jobs audits h)

register_worker-tables :
    (now : ℕ) (worker_id : String) (db : Db)
    → ((register_worker now worker_id db).jobs ≡ db.jobs)
      × ((register_worker now worker_id db).audits ≡ db.audits)
unfolding register_worker
register_worker-tables now worker_id db = ground arith

heartbeat_worker-tables :
    (now : ℕ) (worker_id : String) (status : WorkerStatus) (job : Option String) (db d : Db)
    → heartbeat_worker now worker_id status job db ≡ ok d
    → (d.jobs ≡ db.jobs) × (d.audits ≡ db.audits)
unfolding heartbeat_worker
heartbeat_worker-tables now worker_id status job db d h = ground arith

kept-Good :
    (db : Db) (result : Result Db)
    → IsCoherent db
    → ((d : Db) → result ≡ ok d → (d.jobs ≡ db.jobs) × (d.audits ≡ db.audits))
    → Good db (kept db result)
kept-Good db (ok d) h f = let (jobs, audits) = f d refl in elsewhere-Good db d jobs audits h
kept-Good db (err e) h f = (nothing, h)

set_environment_reference-IsCoherent :
    (k artifact_id : String) (db : Db) (r : AuditRecord) (d : Db)
    → IsCoherent db
    → set_environment_reference k artifact_id db ≡ ok (r, d)
    → IsCoherent d
unfolding set_environment_reference
set_environment_reference-IsCoherent k artifact_id db r d h c =
    let (a, fa, e) = >>=-eq-ok (require_audit db k) _ c in
    subst IsCoherent (snd_eq e) (
      put_audit-IsCoherent k (record a { environment_snapshot_reference = some artifact_id }) a db
        (require_audit-inv db k a fa) refl refl h)

recovered-Good :
    (now n : ℕ) (db d : Db) → IsSound db → recover_after_restart now db ≡ ok (n, d) → Good db d
recovered-Good now n db d ((distinct, owned), h) c =
    let r = recover_after_restart-Recovered now db distinct owned h in
    subst (Good db) (snd_eq (sym r.returns ∙ c)) (r.writes, r.coherent)

prepare_supervisor-Good :
    (now stale : ℕ) (supervisor_id : String) (n : ℕ) (db d : Db)
    → IsSound db
    → prepare_supervisor now stale supervisor_id db ≡ ok (n, d)
    → Good db d
unfolding prepare_supervisor recover_after_restart
prepare_supervisor-Good now stale supervisor_id n db d s c =
    let no_other =
      not (ltb 0 (count (λ w. is_fresh now stale w && is_alive w.status) db.workers)) in
    let (checked, g, rest) = >>=-eq-ok (guard no_other worker_already_running) _ c in
    let ((m, e), r, done) = >>=-eq-ok (recover_running now db) _ rest in
    let (w, h) = recovered-Good now m db e s r in
    let (jobs, audits) = register_worker-tables now supervisor_id e in
    let (v, h') = elsewhere-Good e (register_worker now supervisor_id e) jobs audits h in
    subst (Good db) (snd_eq done) (Writes-trans w v, h')

call-Good : (c : Call) (db : Db) → IsSound db → Good db (call c db)
unfolding call
call-Good (creates_audit now id profile interface scope actor) db ((d, owned), h) =
    committed db (create_audit now id profile interface scope actor db) h λ r e q. (
      create_audit-Writes now id profile interface scope actor db r e q,
      create_audit-IsCoherent now id profile interface scope actor db r e owned h q,
    )
call-Good (sets_environment audit_id artifact_id) db (s, h) =
    committed db (set_environment_reference audit_id artifact_id db) h λ r e q. (
      set_environment_reference-Writes audit_id artifact_id db r e q,
      set_environment_reference-IsCoherent audit_id artifact_id db r e h q,
    )
call-Good (creates_job now id request) db (s, h) =
    committed db (create_job now id request db) h λ r e q.
      (create_job-Writes now id request db r e q, create_job-IsCoherent now id request db r e h q)
call-Good (cancels now k) db (s, h) =
    committed db (request_cancel now k db) h
      λ r e q. (request_cancel-Writes now k db r e q, request_cancel-IsCoherent now k db r e h q)
call-Good (claims now worker_id) db ((distinct, owned), h) =
    committed db (claim_next now worker_id db) h λ r e q. (
      claim_next-Writes now worker_id db r e distinct q,
      claim_next-IsCoherent now worker_id db r e distinct h q,
    )
call-Good (reports now k progress) db (s, h) =
    committed db (update_progress now k progress db) h λ r e q. (
      update_progress-Writes now k db r e progress q,
      update_progress-IsCoherent now k db r e h progress q,
    )
call-Good (completes now k ref summary) db (s, h) =
    committed db (complete_job now k ref summary db) h
      λ r e q. finished now k _ summary db r e h (complete_job-Finishing now k db r e ref summary q)
call-Good (fails now k error) db (s, h) =
    committed db (fail_job now k error db) h
      λ r e q. finished now k _ none db r e h (fail_job-Finishing now k db r e error q)
call-Good (stops now k message ref summary) db (s, h) =
    committed db (cancel_running_job now k message ref summary db) h λ r e q.
      finished now k _ (non_empty summary) db r e h
        (cancel_running_job-Finishing now k db r e message ref summary q)
call-Good (recovers now) db s =
    committed db (recover_after_restart now db) s.1 λ n e q. recovered-Good now n db e s q
call-Good (prepares now stale supervisor_id) db s =
    committed db (prepare_supervisor now stale supervisor_id db) s.1
      λ n e q. prepare_supervisor-Good now stale supervisor_id n db e s q
call-Good (registers now worker_id) db (s, h) =
    let (jobs, audits) = register_worker-tables now worker_id db in
    elsewhere-Good db (register_worker now worker_id db) jobs audits h
call-Good (beats now worker_id status job) db (s, h) =
    kept-Good db (heartbeat_worker now worker_id status job db) h
      (heartbeat_worker-tables now worker_id status job db)
call-Good (retries now id k actor) db (s, h) =
    committed db (retry now id k actor db) h
      λ r e q. (retry-Writes now id k actor db r e q, retry-IsCoherent now id k actor db r e h q)

run-Good :
    (calls : List Call) (db : Db) → IsSound db → Writes db (run calls db) × IsSound (run calls db)
unfolding run
run-Good [] db s = (nothing, s)
run-Good (c ∷ calls) db s =
    let (w, h) = call-Good c db s in
    let (v, t) = run-Good calls (call c db) (Writes-IsStored db w s.0, h) in (Writes-trans w v, t)

empty-IsSound : IsSound empty_db
unfolding Table.find
empty-IsSound = ((tt, tt), λ k a f. cc f)

-- After any sequence of calls of the job system on an empty database (fail_audit is not among them),
-- those that raise included, no two jobs share an identifier, every job has its audit, and every
-- audit agrees with its jobs.
pub run-IsSound : (calls : List Call) → IsSound (run calls empty_db)
run-IsSound calls = (run-Good calls empty_db empty-IsSound).1

-- A job that is found after some calls of the job system (fail_audit is not among them) on an empty
-- database is found after any further calls, for the same audit, and its status was reached along
-- the transition table.
pub run-Later :
    (before after : List Call) (k : String) (j : JobModel)
    → find_job k (run before empty_db) ≡ some j
    → Later k j (run after (run before empty_db))
run-Later before after k j f =
    Writes-Later k j (run before empty_db)
      (run-Good after (run before empty_db) (run-IsSound before)).0
      (record { job = j; found = f; audit_id = refl; path = stays })

-- A job that is in a terminal status after some calls of the job system (fail_audit is not among
-- them) on an empty database has the same status after any further calls.
pub run-terminal :
    (before after : List Call) (k : String) (j : JobModel)
    → find_job k (run before empty_db) ≡ some j
    → terminal j.status ≡ true
    → (j' : JobModel) × (find_job k (run after (run before empty_db)) ≡ some j')
      × (j'.status ≡ j.status)
run-terminal before after k j f t =
    let l = run-Later before after k j f in
    (l.job, l.found, PathOf-terminal j.status l.job.status t l.path)
