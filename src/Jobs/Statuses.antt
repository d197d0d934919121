-- ===== src/Jobs/Statuses.antt =====
-- The statuses of an audit's jobs (the query of `_refresh_audit`, jobs/service.py) under the writes
-- that the service makes, and the audit status that they ask for.
use wirescope.Prelude.{
  String, ◌≡◌, ◌≢◌, refl, some, List, [], ◌∷◌, ◌++◌, arith, str_eq, eq_iff, Bool-cases, inl, inr,
  if◌then◌else◌, Bool, ◌||◌, any, ◌∙◌, ap,
}
use mathlib.Core.Path.{ap₂}
use mathlib.Core.Logic.{∥∥₁_elim}
use mathlib.Core.List.{Perm, Permᴰ}
use wirescope.Jobs.Models.{AuditStatus, JobStatus}
use wirescope.Jobs.Steps.{
  statuses, desired_status, is_active, is_failed, is_interrupted, is_cancelled,
}
use wirescope.Persistence.{JobModel, job_key}
use wirescope.Table.{find, replace}

-- The rows around the one that is written.
pub record Split (a : String) (new old : JobModel) (js : List JobModel) : Type 0 where
  pub before : List JobStatus
  pub after : List JobStatus
  pub was : statuses a js ≡ before ++ old.status ∷ after
  pub is : statuses a (replace job_key new js) ≡ before ++ new.status ∷ after

module _ (a : String) (new old : JobModel) (same : new.audit_id ≡ old.audit_id) where
  -- In its own audit, a written row changes one status.
  pub statuses-Split :
      (js : List JobModel)
      → find job_key new.id js ≡ some old
      → old.audit_id ≡ a
      → Split a new old js
  unfolding statuses find replace
  statuses-Split [] h e = cc
  statuses-Split (j ∷ js) h e = elim (Bool-cases (str_eq j.id new.id)) [
    | inl hit ↦ record {
      before = [];
      after = statuses a js;
      was = ground (arith, eq_iff j.audit_id a, eq_iff old.audit_id a);
      is = ground (arith, eq_iff new.audit_id a);
    }
    | inr miss ↦
        let r = statuses-Split js (ground arith) e in
        record {
          before = if str_eq j.audit_id a then j.status ∷ r.before else r.before;
          after = r.after;
          was = ground (arith, r.was);
          is = ground (arith, r.is);
        }
  ]

  -- In every other audit it changes none.
  pub statuses-replace_ne :
      (js : List JobModel)
      → find job_key new.id js ≡ some old
      → old.audit_id ≢ a
      → statuses a (replace job_key new js) ≡ statuses a js
  unfolding statuses find replace
  statuses-replace_ne [] h e = refl
  statuses-replace_ne (j ∷ js) h e = ground (
    arith,
    eq_iff j.id new.id,
    eq_iff j.audit_id a,
    eq_iff new.audit_id a,
    statuses-replace_ne js,
  )

  -- A write that keeps the status changes none at all.
  pub statuses-replace_same :
      (js : List JobModel)
      → find job_key new.id js ≡ some old
      → new.status ≡ old.status
      → statuses a (replace job_key new js) ≡ statuses a js
  unfolding statuses find replace
  statuses-replace_same [] h e = refl
  statuses-replace_same (j ∷ js) h e = ground (
    arith,
    eq_iff j.id new.id,
    eq_iff j.audit_id a,
    eq_iff new.audit_id a,
    statuses-replace_same js,
  )

pub statuses-append :
    (a : String) (j : JobModel) (js : List JobModel)
    → statuses a (js ++ j ∷ [])
      ≡ statuses a js ++ (if str_eq j.audit_id a then j.status ∷ [] else [])
unfolding statuses
statuses-append a j [] = ground arith
statuses-append a j (i ∷ js) = ground (arith, statuses-append a j js)

or_swap : (a b c : Bool) → (a || (b || c)) ≡ (b || (a || c))
or_swap a b c = ground arith

any-Permᴰ {ℓ} : {A : Type ℓ} (p : A → Bool) {xs ys : List A} → Permᴰ xs ys → any p xs ≡ any p ys
any-Permᴰ p Permᴰ.nil = refl
any-Permᴰ p (Permᴰ.cons e d) = ap₂ (λ b c. b || c) (ap p e) (any-Permᴰ p d)
any-Permᴰ p (Permᴰ.swap {a} {b} {a'} {b'} {l} e f) = rw (e, f) (or_swap (p b') (p a') (any p l))
any-Permᴰ p (Permᴰ.trans d e) = any-Permᴰ p d ∙ any-Permᴰ p e

AuditStatus-set : IsSet AuditStatus
AuditStatus-set = hlevel

-- The audit status depends on which statuses the jobs have and how often, not on their order.
pub desired_status-perm :
    (xs ys : List JobStatus) → Perm xs ys → desired_status xs ≡ desired_status ys
unfolding desired_status
desired_status-perm xs ys h = ∥∥₁_elim h (AuditStatus-set _ _) λ d. rw (
  any-Permᴰ is_active d,
  any-Permᴰ is_failed d,
  any-Permᴰ is_interrupted d,
  any-Permᴰ is_cancelled d,
)
