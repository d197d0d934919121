-- ===== src/Jobs/Choice/Order.antt =====
-- The order of the queue (`claim_next`, jobs/service.py), and which rows are its candidates.
use wirescope.Prelude.{◌≡◌, true, false, arith, keep}
use wirescope.Prelude.Sort.{sort_by, IsSorted, sort_by-IsSorted, All-sort_by}
use wirescope.Jobs.Execution.{candidates, claims_before, is_queued}
use wirescope.Persistence.{JobModel, Db}
use wirescope.Prelude.In.{In, In-All, All-In, In-keep, keep-In, In-sort_by}

-- The order of the queue: the higher priority first, and of equal ones the older.
claims_before-total : (a b : JobModel) → claims_before a b ≡ false → claims_before b a ≡ true
unfolding claims_before
claims_before-total a b h = ground arith

claims_before_trans :
    (a b c : JobModel)
    → claims_before a b ≡ true
    → claims_before b c ≡ true
    → claims_before a c ≡ true
unfolding claims_before
claims_before_trans a b c h i = ground arith

pub claims_before_refl : (a : JobModel) → claims_before a a ≡ true
unfolding claims_before
claims_before_refl a = ground arith

pub candidates-IsSorted : (db : Db) → IsSorted claims_before (candidates db)
unfolding candidates
candidates-IsSorted db =
    sort_by-IsSorted claims_before claims_before-total claims_before_trans (keep is_queued db.jobs)

pub candidate_from :
    (db : Db) (j : JobModel) → In j (candidates db) → In j db.jobs × (is_queued j ≡ true)
unfolding candidates
candidate_from db j i =
    In-All (λ k. In k db.jobs × (is_queued k ≡ true))
      (sort_by claims_before (keep is_queued db.jobs)) j
      (All-sort_by claims_before _ (keep is_queued db.jobs)
        (All-In _ (keep is_queued db.jobs) (keep-In is_queued db.jobs)))
      i

pub candidate_of :
    (db : Db) (j : JobModel) → In j db.jobs → is_queued j ≡ true → In j (candidates db)
unfolding candidates
candidate_of db j i q =
    In-sort_by claims_before j (keep is_queued db.jobs) (In-keep is_queued j db.jobs i q)
