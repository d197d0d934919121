-- ===== src/Jobs/Choice.antt =====
-- Which job `claim_next` (jobs/service.py) takes.
pub mod Order
pub mod Taken
use wirescope.Prelude.{
  ℕ, ap, subst, String, ◌≡◌, refl, sym, ◌∙◌, ◌⊎◌, inl, inr, true, false, Option, none, some, List,
  [], ◌∷◌, arith, ◌≤◌,
}
use wirescope.Prelude.Sort.{IsSorted}
use wirescope.Result.{ok, >>=-eq-ok, ok-injective}
use wirescope.Jobs.Models.{JobStatus}
use wirescope.Jobs.Steps.{resource_available}
use wirescope.Jobs.Execution.{claim_from, claim_next, candidates, claims_before, is_queued}
use wirescope.Jobs.Records.{JobRecord, job_record, attached}
use wirescope.Persistence.{JobModel, Db, find_job}
use wirescope.Prelude.Int.{◌≤ℤ◌}
use wirescope.Jobs.Choice.Taken.{First, Took, claim_from-Took, candidates-IsThere}
use wirescope.Prelude.In.{In, In-All}
use wirescope.Jobs.Choice.Order.{
  claims_before_refl, candidates-IsSorted, candidate_from, candidate_of,
}

-- The job that comes first among the available candidates of a sorted list.
First-best :
    (db : Db) (js : List JobModel) (job : JobModel)
    → IsSorted claims_before js
    → First db js job
    → (resource_available db job ≡ true)
      × In job js
      × ((j : JobModel) → In j js → resource_available db j ≡ true → claims_before job j ≡ true)
First-best db [] job sorted first = absurd first
First-best db (x ∷ xs) job sorted (inl (e, free)) = (free, inl e, best)
  where
    best :
        (j : JobModel) → In j (x ∷ xs) → resource_available db j ≡ true → claims_before job j ≡ true
    best j (inl p) f = subst (λ k. claims_before job k ≡ true) (sym e ∙ p) (claims_before_refl job)
    best j (inr i) f =
        subst (λ k. claims_before k j ≡ true) e
          (In-All (λ y. claims_before x y ≡ true) xs j sorted.0 i)
First-best db (x ∷ xs) job sorted (inr (busy, first)) =
    let (free, there, best) = First-best db xs job sorted.1 first in
    (
      free,
      inr there,
      λ j i f. elim i [
        | inl p ↦ ground (arith, busy, f, ap (resource_available db) p)
        | inr r ↦ best j r f
      ],
    )

-- A higher priority, or no lower one and not created later.
abbrev pub Precedes : JobModel → JobModel → Type 0
Precedes job j =
    (¬ (job.priority ≤ℤ j.priority))
    ⊎ ((j.priority ≤ℤ job.priority) × (job.created_at ≤ j.created_at))

claims_before-Precedes : (a b : JobModel) → claims_before a b ≡ true → Precedes a b
unfolding claims_before
claims_before-Precedes a b h = ground arith

-- What a worker got: nothing, where no queued job is available; or a job whose row now runs for it and is
-- the one returned, which was queued and available, and none that was too comes before it.
abbrev pub Chosen : String → Db → Option JobRecord → Db → Type 0
Chosen worker_id db none db' =
    (j : JobModel) → In j db.jobs → is_queued j ≡ true → resource_available db j ≡ false
Chosen worker_id db (some r) db' =
    (job : JobModel) × (row : JobModel) × (find_job job.id db' ≡ some row)
    × (row.status ≡ JobStatus.running)
    × (row.worker_id ≡ some worker_id)
    × (r ≡ job_record (attached db'.events) row)
    × In job db.jobs
    × (is_queued job ≡ true)
    × (resource_available db job ≡ true)
    × ((j : JobModel)
        → In j db.jobs
        → is_queued j ≡ true
        → resource_available db j ≡ true
        → Precedes job j)

Took-Chosen :
    (worker_id : String) (db db' : Db) (c : Option JobModel)
    → Took worker_id db (candidates db) (c, db')
    → Chosen worker_id db
        (elim c [ none ↦ none | some j ↦ some (job_record (attached db'.events) j) ])
        db'
Took-Chosen worker_id db db' none t = λ j i q.
    In-All (λ k. resource_available db k ≡ false) (candidates db) j t (candidate_of db j i q)
Took-Chosen worker_id db db' (some c) (job, first, (id, status, worker, kept)) =
    let (free, there, best) = First-best db (candidates db) job (candidates-IsSorted db) first in
    let (stored, queued) = candidate_from db job there in
    (
      job,
      c,
      subst (λ k. find_job k db' ≡ some c) id kept,
      status,
      worker,
      refl,
      stored,
      queued,
      free,
      λ j i q f. claims_before-Precedes job j (best j (candidate_of db j i q) f),
    )

-- Where claim_next returns no job, no queued job had its resource available. A job that it returns
-- was stored and queued with its resource available, and no other such job had a higher priority, or
-- the same priority and an earlier time of creation; in the new database the row under its
-- identifier is running for this worker, and the record returned is the one of that row.
pub claim_next-Chosen :
    (now : ℕ) (worker_id : String) (db : Db) (r : Option JobRecord) (db' : Db)
    → claim_next now worker_id db ≡ ok (r, db')
    → Chosen worker_id db r db'
unfolding claim_next
claim_next-Chosen now worker_id db r db' h =
    let ((c, d), t, e) = >>=-eq-ok (claim_from now worker_id (candidates db) db) _ h in
    subst (λ (p : Option JobRecord × Db). Chosen worker_id db p.0 p.1) (ok-injective e)
      (Took-Chosen worker_id db d c
        (claim_from-Took now worker_id (candidates db) db c d (candidates-IsThere db) t))
