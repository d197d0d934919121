-- ===== src/Jobs/State.antt =====
-- jobs/state.py: the state transition rules of audits and jobs.
pub mod Graph
use wirescope.Prelude.{Bool, true, false}
use wirescope.Result.{Result, Done, guard, invalid_job_transition, invalid_audit_transition}
use wirescope.Jobs.Models.{AuditStatus, JobStatus}

-- `desired in JOB_TRANSITIONS[current]`
unfoldable pub job_transitions : JobStatus → JobStatus → Bool
job_transitions JobStatus.queued JobStatus.running = true
job_transitions JobStatus.queued JobStatus.cancelled = true
job_transitions JobStatus.running JobStatus.completed = true
job_transitions JobStatus.running JobStatus.failed = true
job_transitions JobStatus.running JobStatus.cancelled = true
job_transitions JobStatus.running JobStatus.interrupted = true
job_transitions _ _ = false

-- `desired in AUDIT_TRANSITIONS[current]`
unfoldable pub audit_transitions : AuditStatus → AuditStatus → Bool
audit_transitions AuditStatus.created AuditStatus.running = true
audit_transitions AuditStatus.created AuditStatus.cancelled = true
audit_transitions AuditStatus.created AuditStatus.failed = true
audit_transitions AuditStatus.running AuditStatus.completed = true
audit_transitions AuditStatus.running AuditStatus.failed = true
audit_transitions AuditStatus.running AuditStatus.cancelled = true
audit_transitions AuditStatus.running AuditStatus.interrupted = true
audit_transitions AuditStatus.completed AuditStatus.running = true
audit_transitions AuditStatus.failed AuditStatus.running = true
audit_transitions AuditStatus.cancelled AuditStatus.running = true
audit_transitions AuditStatus.interrupted AuditStatus.running = true
audit_transitions _ _ = false

-- `current in AUDIT_JOB_ACCEPTING`
unfoldable pub audit_job_accepting : AuditStatus → Bool
audit_job_accepting AuditStatus.created = true
audit_job_accepting AuditStatus.running = true
audit_job_accepting AuditStatus.completed = true
audit_job_accepting _ = false

unfoldable pub require_job_transition : JobStatus → JobStatus → Result Done
unfolding job_transitions
require_job_transition current desired =
    guard (job_transitions current desired) (invalid_job_transition current desired)

unfoldable pub require_audit_transition : AuditStatus → AuditStatus → Result Done
unfolding audit_transitions
require_audit_transition current desired =
    guard (audit_transitions current desired) (invalid_audit_transition current desired)
