-- ===== src/Jobs/State/Graph.antt =====
-- What the transition tables of jobs/state.py allow, whole.
use wirescope.Prelude.{◌≡◌, ◌↔◌, true, false, arith}
use wirescope.Jobs.Models.{JobStatus, terminal}
use wirescope.Jobs.State.{job_transitions}

-- A job status is terminal exactly if the transition table allows no transition out of it.
pub terminal_iff :
    (s : JobStatus) → (terminal s ≡ true) ↔ ((t : JobStatus) → job_transitions s t ≡ false)
unfolding terminal job_transitions
terminal_iff s = (λ h t. ground arith, λ h. ground (arith, h JobStatus.running, h JobStatus.failed))
