-- ===== src/Jobs/Maintenance.antt =====
-- MaintenanceService.prune_terminal_job_events (jobs/maintenance.py). `cutoff` is the clock reading less
-- the retention.
use wirescope.Prelude.{
  some-injective, not_equal, ℕ, ◌+◌, ◌-◌, ◌≡◌, refl, sym, ap, ◌∙◌, subst, inl, inr, String, Bool,
  false, not, ◌&&◌, Option, none, some, List, [], ◌∷◌, any, keep, length, ltb, str_eq, eq_iff,
  if_then, if_else, Bool-cases, arith, length-keep-le,
}
use wirescope.Jobs.Models.{terminal}
use wirescope.Persistence.{JobModel, JobEventModel, Db, find_job, job_key}
use wirescope.Table.{find}
use wirescope.Table.Keys.{Distinct, Fresh}

-- `JobModel.finished_at < cutoff`, which NULL is not.
abbrev pub finished_before : ℕ → Option ℕ → Bool
finished_before cutoff none = false
finished_before cutoff (some t) = ltb t cutoff

-- The jobs whose old events go.
abbrev pub is_old_job : ℕ → JobModel → Bool
is_old_job cutoff j = terminal j.status && finished_before cutoff j.finished_at

-- `JobEventModel.job_id.in_(job_ids)`
unfoldable pub in_job_ids : ℕ → String → List JobModel → Bool
unfolding terminal
in_job_ids cutoff k jobs = any (λ j. is_old_job cutoff j && str_eq j.id k) jobs

abbrev pub is_old_event : ℕ → List JobModel → JobEventModel → Bool
is_old_event cutoff jobs e = in_job_ids cutoff e.job_id jobs && ltb e.created_at cutoff

unfoldable pub prune_terminal_job_events : ℕ → Db → ℕ × Db
unfolding in_job_ids
prune_terminal_job_events cutoff db =
    let left = keep (λ e. not (is_old_event cutoff db.jobs e)) db.events in
    (length db.events - length left, record db { events = left })

-- The events of a job.
abbrev pub events_of : String → List JobEventModel → List JobEventModel
events_of k = keep (λ e. str_eq e.job_id k)

Fresh-in_job_ids :
    (cutoff : ℕ) (k : String) (jobs : List JobModel)
    → Fresh job_key k jobs
    → in_job_ids cutoff k jobs ≡ false
unfolding in_job_ids
Fresh-in_job_ids cutoff k [] h = refl
Fresh-in_job_ids cutoff k (j ∷ jobs) h =
    let other : str_eq j.id k ≡ false = not_equal j.id k (λ p. h.0 (sym p)) in
    ground (arith, other, Fresh-in_job_ids cutoff k jobs h.1)

live_not_in :
    (cutoff : ℕ) (k : String) (jobs : List JobModel) (j : JobModel)
    → Distinct job_key jobs
    → find job_key k jobs ≡ some j
    → terminal j.status ≡ false
    → in_job_ids cutoff k jobs ≡ false
unfolding in_job_ids find
live_not_in cutoff k [] j d f t = refl
live_not_in cutoff k (i ∷ jobs) j d f t = elim (Bool-cases (str_eq i.id k)) [
  | inl e ↦
      let same : i ≡ j = some-injective (if_then (str_eq i.id k) _ e f) in
      let running : terminal i.status ≡ false = ap (λ x. terminal x.status) same ∙ t in
      let rest : in_job_ids cutoff k jobs ≡ false =
        Fresh-in_job_ids cutoff k jobs
          (subst (λ s. Fresh job_key s jobs) ((eq_iff i.id k).0 e) d.0) in
      ground (arith, running, rest)
  | inr e ↦ ground (arith, e, live_not_in cutoff k jobs j d.1 (if_else (str_eq i.id k) _ e f) t)
]

keep-events_of :
    (cutoff : ℕ) (k : String) (jobs : List JobModel) (es : List JobEventModel)
    → in_job_ids cutoff k jobs ≡ false
    → events_of k (keep (λ e. not (is_old_event cutoff jobs e)) es) ≡ events_of k es
keep-events_of cutoff k jobs [] h = refl
keep-events_of cutoff k jobs (e ∷ es) h = elim (Bool-cases (str_eq e.job_id k)) [
  | inl q ↦
      let young : in_job_ids cutoff e.job_id jobs ≡ false =
        ap (λ s. in_job_ids cutoff s jobs) ((eq_iff e.job_id k).0 q) ∙ h in
      rw (young, q) (ap (λ l. e ∷ l) (keep-events_of cutoff k jobs es h))
  | inr q ↦ elim (Bool-cases (is_old_event cutoff jobs e)) [
    | inl o ↦ rw (o, q) (keep-events_of cutoff k jobs es h)
    | inr o ↦ rw (o, q) (keep-events_of cutoff k jobs es h)
  ]
]

-- Where job identifiers are distinct, prune_terminal_job_events keeps all events of a job that is
-- not terminal, in order, and returns how many events it deleted.
pub prune_terminal_job_events-live :
    (cutoff : ℕ) (db : Db) (k : String) (j : JobModel)
    → Distinct job_key db.jobs
    → find_job k db ≡ some j
    → terminal j.status ≡ false
    → (events_of k (prune_terminal_job_events cutoff db).1.events ≡ events_of k db.events)
      × ((prune_terminal_job_events cutoff db).0
            + length (prune_terminal_job_events cutoff db).1.events
          ≡ length db.events)
unfolding prune_terminal_job_events
prune_terminal_job_events-live cutoff db k j d f t = (
  keep-events_of cutoff k db.jobs db.events (live_not_in cutoff k db.jobs j d f t),
  omega (arith, length-keep-le (λ e. not (is_old_event cutoff db.jobs e)) db.events),
)
