-- ===== src/Lib.antt =====
-- Verification library of WireScope, a network auditor: the durable job system, the confirmed scope of
-- active scans, the store of findings, and operators' accounts and sessions.
--
-- The program. Operators create audits and queue jobs for them (jobs/service.py); one supervised worker
-- claims jobs and runs their handlers (jobs/worker.py); a failed job is replaced by a retry
-- (backend/recovery.py). Every call of the service is one transaction on an SQLite database
-- (persistence/models.py). The audit row repeats what its job rows say, and `_refresh_audit` keeps the two
-- in step. Active scans touch only a confirmed scope: engine/scope.py offers networks to an operator, and
-- turns the targets that come back into a canonical list of networks within limits. Handlers collect
-- observations; rules turn them into finding drafts, which are deduplicated (findings/engine.py) and
-- stored with an audit trail of their status (findings/store.py).
--
-- The model. The database is a record of tables (Persistence, FindingDb in Findings/Store); a table is a
-- list of rows in the order of their insertion, with lookup and update by primary key (Table, Table/Keys).
-- A transaction is a function from the database to a result: the new database with what the call returns,
-- or the exception (Result), in which case nothing is committed. `now` is the clock reading of the call, a
-- natural number; a generated identifier is an argument. Texts are whole Unicode strings.
--   Jobs/Models       jobs/models.py: statuses, errors, progress
--   Jobs/State        jobs/state.py: the transition tables
--   Jobs/Records      jobs/service.py: _audit_record, _job_record, _event_record, _job_updated_at
--   Jobs/Steps        jobs/service.py: _transition_job, _refresh_audit, _resource_available, _release_lock
--   Jobs/Service      jobs/service.py: create_audit, fail_audit, create_job and the lookups
--   Jobs/Execution    jobs/service.py: request_cancel, claim_next, update_progress, complete_job, fail_job,
--                     cancel_running_job
--   Jobs/Supervision  jobs/service.py: workers, heartbeats, recovery after a restart
--   Jobs/Recovery     backend/recovery.py: retry
--   Jobs/Listings     jobs/service.py: list_audits, list_jobs, list_events
--   Jobs/Maintenance  jobs/maintenance.py: prune_terminal_job_events
--   Jobs/Registry     jobs/registry.py: register, resolve
--   Jobs/Worker       jobs/worker.py: startup, run_once, _execute
--   Scope/Networks    what engine/scope.py uses of ipaddress: networks as numbers
--   Scope/Validate    engine/scope.py: ScopeValidator.validate and its helpers
--   Scope/Proposal    engine/scope.py: _eligible_networks, _assigned_network, _proposal
--   Scope/Hints       engine/scope.py: propose, _vlan_id_for, _route_destination,
--                     expand_connected_network_targets
--   Findings/Models   findings/models.py and the two tables of persistence/models.py
--   Findings/Engine   findings/engine.py: _merge, deduplicate_drafts
--   Findings/Bounds   findings/store.py: _bound_data, _truncate
--   Findings/Store    findings/store.py: upsert_evaluation, change_status, get_finding, count
--   Auth/Throttle     auth/service.py: AttemptThrottle
--   Auth/Passwords    auth/passwords.py: hash_password, verify_password
--   Auth/Users        auth/models.py, the tables users and sessions, the patterns of auth/service.py
--   Auth/Accounts     auth/service.py: create_user, authenticate, set_password, change_password
--   Auth/Sessions     auth/service.py: create_session, resolve_token, revoke_token, purge_expired
-- The other files hold proofs. Jobs/Coherence and its children are about the agreement of audits with
-- their jobs, Jobs/Claiming is a proof rule for the loop of claim_next, Jobs/Choice is about the job
-- that it takes, Jobs/Liveness and Jobs/Ending are about the end of a running job, Jobs/Outcome about
-- the worker at that point, Jobs/Restart and its children about the recovery after a restart,
-- Jobs/Progress about the reports of handlers. Jobs/Writes and its children say what each call writes
-- into the jobs table, and Jobs/Calls and Jobs/Calls/Soundness follow any sequence of calls on an
-- empty database; Jobs/Listings/Pages is about what a page of jobs shows. Scope/Covering and
-- Scope/Disjoint are about the addresses of the kept networks, Scope/Permitted, Scope/Confirmed,
-- Scope/Stops and Scope/Refusals about what is accepted and refused, Scope/Canonical and Scope/Reading
-- about validating a scope again, Scope/Reduced about the canonical list of networks, Scope/Offers,
-- Scope/Proposing and Scope/Accepting about proposals, Scope/Expanding about expanded targets.
-- Scope/Example is a small ipaddress for the tests, Scope/Tests. Findings/Merging, Findings/Statuses,
-- Findings/Upserts and Auth/Window are about what their parents do, Auth/Hashes, Auth/Changes,
-- Auth/Attempts and Auth/Registration about passwords, Auth/Tokens about sessions; Auth/Example is a
-- small key derivation for Auth/Tests. Jobs/Tests, Findings/Tests and Auth/Tests apply the theorems to
-- small inputs.
--
-- An audit agrees with its jobs (`agrees`) when a created one has queued jobs only, a running one has a
-- job that is queued or runs, and one that has ended has no jobs or jobs that ended as its status says.
--
-- Parameters: the handler of a job (what it leaves in the database, whether the cancellation token was
-- set, how it ended); the length of the JSON text that json.dumps prints; of ipaddress, how networks
-- and addresses are read and printed and which are unspecified, multicast, loopback or link-local;
-- str.strip; the key derivation, bytes.hex, bytes.fromhex, int and the token digest of
-- auth/passwords.py; and the number of a text of digits (isdigit, int), where a text that int refuses
-- counts as one that is not of digits. How the database orders the rows of a listing is an argument of
-- the listing, since ORDER BY leaves the order of equal keys open; the theorem assumes no order among
-- them. Theorems that assume laws of these parameters ask them only of values that exist: networks and
-- addresses of version 4 below 2 ^ 32, of version 6 below 2 ^ 128, and bytes below 256. All loops are
-- structural recursions on the rows or drafts they walk, so there is no fuel.
--
-- Not modelled: HTTP routers, the capture and scan providers, parsers, inventory, topology, reports, the
-- bootstrap of the first users, the front end; in the job system the artifacts, logging, the thread that
-- polls for cancellation, and the locking by which SQLite makes transactions one after another. The order
-- of a Python set of audit identifiers is one fixed order here, and of queued jobs with equal priority and
-- time claim_next takes the one inserted first, which its query leaves open. Zone identifiers of IPv6 addresses and the
-- messages of scope errors are left out. fail_audit is modelled, but it does not keep the agreement of an
-- audit that has jobs; the program calls it only for an audit it has just created.
pub mod Prelude
pub mod Table
pub mod Json
pub mod Result
pub mod Persistence
pub mod Jobs
pub mod Findings
pub mod Scope
pub mod Auth
