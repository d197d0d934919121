-- ===== src/Auth/Attempts.antt =====
-- An operator changes the password (AuthService.change_password, auth/service.py): when it is changed,
-- and that nothing happens to users and sessions otherwise.
use wirescope.Auth.Accounts.{
  after_attempt, authenticate, change_password, changed_password, reported, set_password,
}
use wirescope.Auth.Passwords.{Bytes, Hashing}
use wirescope.Auth.Throttle.{Failures, blocked, clear}
use wirescope.Auth.Users.{
  AuthDb, AuthError, Outcome, SessionUser, denied, granted, invalid_credentials,
}
use wirescope.Prelude.{
  ℕ, ◌≡◌, ◌⊎◌, refl, inl, inr, String, false, Option, str_eq, eq_iff, Bool-cases,
}

module _ (hashing : Hashing) (strip digest : String → String) (window now later : ℕ)
    (zeros salt : Bytes) (user : SessionUser) (current_password new_password : String)
    (keep_token : Option String) (failures : Failures) (db : AuthDb) where
  -- An attempt that was not blocked gave the current password, and the new one was set.
  pub record IsChanged (result : Outcome SessionUser × Failures × AuthDb) : Type 0 where
    pub changed : SessionUser
    pub known : SessionUser
    pub outcome : result.0 ≡ granted changed
    pub free : (blocked window 8 user.id now failures).0 ≡ false
    pub authentic :
        authenticate hashing strip digest zeros user.username current_password db ≡ granted known
    pub same_user : known.id ≡ user.id
    pub set :
        set_password hashing strip digest salt user.username new_password keep_token db
        ≡ granted (changed, result.2)
    pub forgotten : result.1 ≡ clear user.id (blocked window 8 user.id now failures).1

  abbrev pub IsAttempt : Outcome SessionUser × Failures × AuthDb → Type 0
  IsAttempt r = ((e : AuthError) × (r.0 ≡ denied e) × (r.2 ≡ db)) ⊎ IsChanged r

  abbrev pruned : Failures
  pruned = (blocked window 8 user.id now failures).1

  changed_password-IsAttempt :
      (known : SessionUser) (o : Outcome (SessionUser × AuthDb))
      → (blocked window 8 user.id now failures).0 ≡ false
      → authenticate hashing strip digest zeros user.username current_password db ≡ granted known
      → known.id ≡ user.id
      → set_password hashing strip digest salt user.username new_password keep_token db ≡ o
      → IsAttempt (changed_password hashing strip digest user.id pruned db o)
  changed_password-IsAttempt known (denied e) b a s p = inl (e, refl, refl)
  changed_password-IsAttempt known (granted (u, db')) b a s p = inr (record {
    changed = u;
    known = known;
    outcome = refl;
    free = b;
    authentic = a;
    same_user = s;
    set = p;
    forgotten = refl;
  })

  after_attempt-IsAttempt :
      (o : Outcome SessionUser)
      → (blocked window 8 user.id now failures).0 ≡ false
      → authenticate hashing strip digest zeros user.username current_password db ≡ o
      → IsAttempt (
          after_attempt hashing strip digest window later salt user new_password keep_token pruned
            db o)
  after_attempt-IsAttempt (denied e) b a = inl (reported hashing strip digest e, refl, refl)
  after_attempt-IsAttempt (granted known) b a = elim (Bool-cases (str_eq known.id user.id)) [
    | inl t ↦ rw t (changed_password-IsAttempt known _ b a ((eq_iff known.id user.id).0 t) refl)
    | inr t ↦ rw t (inl (invalid_credentials, refl, refl))
  ]

  -- A change_password that is denied leaves users and sessions as they were. One that is granted was
  -- not blocked, its current password authenticated the user who asked, set_password set the new
  -- one, and the failures of the user are forgotten.
  pub change_password-IsAttempt : IsAttempt (
      change_password hashing strip digest window now later zeros salt user current_password
        new_password keep_token failures db)
  unfolding change_password
  change_password-IsAttempt = elim (Bool-cases (blocked window 8 user.id now failures).0) [
    | inl t ↦ rw t (inl (invalid_credentials, refl, refl))
    | inr t ↦ rw t (after_attempt-IsAttempt _ t refl)
  ]
