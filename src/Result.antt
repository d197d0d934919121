-- ===== src/Result.antt =====
-- What a service call returns: a value, or the exception that ended its transaction. A transaction
-- that raises is rolled back (persistence/database.py), so the caller keeps the store it had.
use wirescope.Prelude.{arith, ◌≡◌, refl, ap, String, Bool, true, false}
use wirescope.Jobs.Models.{AuditStatus, JobStatus}

pub data Error : Type 0 where
  audit_not_found : String → Error
  job_not_found : String → Error
  worker_not_found : String → Error
  artifact_not_found : String → Error
  invalid_job_transition : JobStatus → JobStatus → Error
  invalid_audit_transition : AuditStatus → AuditStatus → Error
  cannot_enqueue : AuditStatus → Error
  value_error : String → Error
  worker_already_running : Error
  retry_not_allowed : String → Error
  integrity_error : String → Error
  finding_not_found : String → Error
  invalid_finding_state : String → Error

pub data Result {ℓ} (X : Type ℓ) : Type ℓ where
  err : Error → Result X
  ok : X → Result X

-- What a check returns that passes.
pub data Done : Type 0 where
  done : Done

-- A statement of a transaction and the rest of it; what is raised skips the rest.
infixl 5 ◌>>=◌ ◌>>◌
abbrev pub ◌>>=◌ {ℓ κ} : {X : Type ℓ} {Y : Type κ} → Result X → (X → Result Y) → Result Y
err raised >>= rest = err raised
ok value >>= rest = rest value

abbrev pub ◌>>◌ {ℓ} : {Y : Type ℓ} → Result Done → Result Y → Result Y
check >> rest = check >>= λ passed. rest

-- A transaction that returned got past its first statement.
pub >>=-eq-ok {ℓ κ} :
    {X : Type ℓ} {Y : Type κ} (first : Result X) (rest : X → Result Y) {y : Y}
    → (first >>= rest) ≡ ok y
    → (x : X) × (first ≡ ok x) × (rest x ≡ ok y)
>>=-eq-ok (err raised) rest returns = cc
>>=-eq-ok (ok x) rest returns = (x, refl, returns)

-- `if not test: raise e`
abbrev pub guard : Bool → Error → Result Done
guard false raised = err raised
guard true raised = ok done

pub ok-injective {ℓ} : {A : Type ℓ} {a b : A} → ok a ≡ ok b → a ≡ b
ok-injective {a} {b} h = cc

-- The two parts of what a step returned.
pub fst_eq {ℓ} :
    {A B : Type ℓ} {a a' : A} {b b' : B}
    → ◌≡◌ {A = Result (A × B)} (ok (a, b)) (ok (a', b'))
    → a ≡ a'
fst_eq h = ap (λ p. p.0) (ok-injective h)

pub snd_eq {ℓ} :
    {A B : Type ℓ} {a a' : A} {b b' : B}
    → ◌≡◌ {A = Result (A × B)} (ok (a, b)) (ok (a', b'))
    → b ≡ b'
snd_eq h = ap (λ p. p.1) (ok-injective h)

pub guard-eq-ok : (b : Bool) (e : Error) (d : Done) → guard b e ≡ ok d → b ≡ true
guard-eq-ok b e d h = ground arith
