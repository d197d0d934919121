-- ===== src/Auth/Sessions.antt =====
-- AuthService (auth/service.py): the sessions. `digest` is token_digest (auth/passwords.py).
use wirescope.Auth.Users.{
  AuthDb, Outcome, SessionModel, SessionUser, UserModel, denied, granted, session_error, ◌>>=◌,
  session_key, user_key, user_record,
}
use wirescope.Prelude.{
  ℕ, ◌+◌, String, ◌&&◌, not, Option, none, some, [], ◌∷◌, ◌++◌, str_eq, leb, is_some, keep, length,
  ◌-◌, if◌then◌else◌,
}
use wirescope.Table.{find, replace}

-- `session.delete(model)`, or DELETE of the sessions with this key
abbrev pub delete_session : String → AuthDb → AuthDb
delete_session k db = record db { sessions = keep (λ s. not (str_eq s.id k)) db.sessions }

-- The foreign key wants the user, the primary key a new digest.
unfoldable pub insert_session : SessionModel → AuthDb → Outcome AuthDb
insert_session s db =
    if is_some (find user_key s.user_id db.users)
      && not (is_some (find session_key s.id db.sessions))
    then granted (record db { sessions = db.sessions ++ s ∷ [] })
    else denied session_error

-- The user of a session that has not expired.
abbrev pub resolve_user : ℕ → SessionModel → Option UserModel → AuthDb → Option SessionUser × AuthDb
resolve_user now s none db = (none, delete_session s.id db)
resolve_user now s (some u) db = if u.disabled then (none, delete_session s.id db) else (
  some (user_record u),
  record db { sessions = replace session_key (record s { last_seen_at = now }) db.sessions },
)

abbrev pub resolve_session : ℕ → Option SessionModel → AuthDb → Option SessionUser × AuthDb
resolve_session now none db = (none, db)
resolve_session now (some s) db =
    if leb s.expires_at now
    then (none, delete_session s.id db)
    else resolve_user now s (find user_key s.user_id db.users) db

module _ (digest : String → String) where
  -- `token` is what `new_session_token` gives.
  unfoldable pub create_session : ℕ → ℕ → String → SessionUser → AuthDb → Outcome (String × AuthDb)
  unfolding insert_session
  create_session now session_ttl_seconds token user db = do
    let s : SessionModel = record {
      id = digest token;
      user_id = user.id;
      created_at = now;
      expires_at = now + session_ttl_seconds;
      last_seen_at = now;
    }
    added ← insert_session s db
    granted (token, added)

  abbrev pub resolve_digest : ℕ → String → AuthDb → Option SessionUser × AuthDb
  resolve_digest now token db = resolve_session now (find session_key (digest token) db.sessions) db

  unfoldable pub resolve_token : ℕ → Option String → AuthDb → Option SessionUser × AuthDb
  unfolding user_record
  resolve_token now none db = (none, db)
  resolve_token now (some token) db =
      if str_eq token "" then (none, db) else resolve_digest now token db

  unfoldable pub revoke_token : Option String → AuthDb → AuthDb
  revoke_token none db = db
  revoke_token (some token) db = if str_eq token "" then db else delete_session (digest token) db

unfoldable pub purge_expired : ℕ → AuthDb → ℕ × AuthDb
purge_expired now db =
    let live = keep (λ s. not (leb s.expires_at now)) db.sessions in
    (length db.sessions - length live, record db { sessions = live })
