-- ===== src/Auth/Accounts.antt =====
-- AuthService (auth/service.py): the operations on users and passwords. A salt, an identifier and the
-- clock reading of a call are arguments.
use wirescope.Auth.Passwords.{Bytes, Hashing, hash_password, verify_password}
use wirescope.Auth.Throttle.{Failures, blocked, clear, record_failure}
use wirescope.Auth.Users.{
  AuthDb, AuthError, Outcome, Role, SessionModel, SessionUser, UserModel, denied, granted,
  invalid_username, invalid_password, username_taken, invalid_credentials, unknown_user,
  user_disabled, hash_error, ◌>>=◌, min_password_length, name_key, or_deny, require, text_length,
  user_key, user_record, username_matches,
}
use wirescope.Prelude.{
  ℕ, String, Bool, false, ◌||◌, not, Option, none, some, [], ◌∷◌, ◌++◌, str_eq, leb, is_some, keep,
  if◌then◌else◌,
}
use wirescope.Table.{find, replace}

-- `session.add(user)` under the primary key and the unique index on names
unfoldable pub insert_user : UserModel → AuthDb → Outcome AuthDb
insert_user u db =
    if is_some (find user_key u.id db.users) || is_some (find name_key u.username db.users)
    then denied username_taken
    else granted (record db { users = db.users ++ u ∷ [] })

-- The sessions that a change of the password leaves.
abbrev pub survives : String → Option String → SessionModel → Bool
survives user_id none s = not (str_eq s.user_id user_id)
survives user_id (some digest) s = not (str_eq s.user_id user_id) || str_eq s.id digest

abbrev pub keep_digest : (String → String) → Option String → Option String
keep_digest digest none = none
keep_digest digest (some token) = if str_eq token "" then none else some (digest token)

module _ (hashing : Hashing) (strip digest : String → String) where
  unfoldable pub create_user :
      ℕ → String → Bytes → String → String → Role → AuthDb → Outcome (SessionUser × AuthDb)
  unfolding username_matches hash_password insert_user user_record text_length
  create_user now id salt username password role db = do
    let normalized = strip username
    matched ← require (username_matches normalized) invalid_username
    long ← require (leb min_password_length (text_length password)) invalid_password
    hash ← or_deny hash_error (hash_password hashing password salt)
    let user : UserModel = record {
      id = id;
      username = normalized;
      password_hash = hash;
      role = role;
      disabled = false;
      created_at = now;
    }
    added ← insert_user user db
    granted (user_record user, added)

  -- `dummy_hash()`
  unfoldable pub dummy_hash : Bytes → Option String
  unfolding hash_password
  dummy_hash zeros = hash_password hashing "wirescope-invalid-login" zeros

  abbrev pub stored_hash : Bytes → Option UserModel → Option String
  stored_hash zeros none = dummy_hash zeros
  stored_hash zeros (some u) = some u.password_hash

  abbrev pub accept_user : Bool → Option UserModel → Outcome SessionUser
  accept_user valid none = denied invalid_credentials
  accept_user valid (some u) =
      if not valid || u.disabled then denied invalid_credentials else granted (user_record u)

  -- `zeros` is the salt of the dummy hash.
  unfoldable pub authenticate : Bytes → String → String → AuthDb → Outcome SessionUser
  unfolding verify_password dummy_hash user_record
  authenticate zeros username password db = do
    let model = find name_key (strip username) db.users
    stored ← or_deny hash_error (stored_hash zeros model)
    valid ← or_deny hash_error (verify_password hashing password stored)
    accept_user valid model

  unfoldable pub set_password :
      Bytes → String → String → Option String → AuthDb → Outcome (SessionUser × AuthDb)
  unfolding hash_password user_record text_length
  set_password salt username password keep_token db = do
    long ← require (leb min_password_length (text_length password)) invalid_password
    model ← or_deny unknown_user (find name_key (strip username) db.users)
    enabled ← require (not model.disabled) user_disabled
    hash ← or_deny hash_error (hash_password hashing password salt)
    let changed : UserModel = record model { password_hash = hash }
    let sessions = keep (survives model.id (keep_digest digest keep_token)) db.sessions
    granted (
      user_record changed,
      record { users = replace user_key changed db.users; sessions = sessions },
    )

  -- What a failed attempt leaves: `except AuthError` does not catch an error of the hashing.
  abbrev pub attempt_failed : ℕ → ℕ → String → AuthError → Failures → Failures
  attempt_failed window now key AuthError.hash_error failures = failures
  attempt_failed window now key _ failures = record_failure window key now failures

  abbrev pub reported : AuthError → AuthError
  reported AuthError.hash_error = hash_error
  reported _ = invalid_credentials

  -- Where the password was set, the failures of the user are forgotten.
  abbrev pub changed_password :
      String
      → Failures
      → AuthDb
      → Outcome (SessionUser × AuthDb)
      → Outcome SessionUser × Failures × AuthDb
  changed_password key failures db (denied e) = (denied e, failures, db)
  changed_password key failures db (granted (u, db')) = (granted u, clear key failures, db')

  abbrev pub after_attempt :
      ℕ
      → ℕ
      → Bytes
      → SessionUser
      → String
      → Option String
      → Failures
      → AuthDb
      → Outcome SessionUser
      → Outcome SessionUser × Failures × AuthDb
  after_attempt window now salt user new_password keep_token failures db (denied e) =
      (denied (reported e), attempt_failed window now user.id e failures, db)
  after_attempt window now salt user new_password keep_token failures db (granted u) =
      if not (str_eq u.id user.id)
      then (denied invalid_credentials, record_failure window user.id now failures, db)
      else changed_password user.id failures db
          (set_password salt user.username new_password keep_token db)

  -- At most 8 failures in the window; the throttle is asked at `now` and told at `later`.
  unfoldable pub change_password :
      ℕ
      → ℕ
      → ℕ
      → Bytes
      → Bytes
      → SessionUser
      → String
      → String
      → Option String
      → Failures
      → AuthDb
      → Outcome SessionUser × Failures × AuthDb
  unfolding authenticate set_password blocked clear record_failure
  change_password window now later zeros salt user current_password new_password keep_token failures
        db =
      let (is_blocked, pruned) = blocked window 8 user.id now failures in
      if is_blocked
      then (denied invalid_credentials, pruned, db)
      else after_attempt window later salt user new_password keep_token pruned db
          (authenticate zeros user.username current_password db)
