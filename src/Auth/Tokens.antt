-- ===== src/Auth/Tokens.antt =====
-- What a session token gives (AuthService, auth/service.py).
use wirescope.Auth.Sessions.{
  create_session, insert_session, resolve_session, resolve_token, resolve_user, revoke_token,
}
use wirescope.Auth.Users.{
  granted-injective, not_granted, AuthDb, SessionModel, SessionUser, UserModel, denied, granted,
  session_error, session_key, user_key, user_record, ◌>>=◌,
}
use wirescope.Prelude.{
  some-injective, no_value, conj_right, ℕ, ◌↔◌, ◌+◌, ◌<◌, ◌≡◌, refl, sym, ap, subst, ◌∙◌, inl, inr,
  String, Bool, true, false, not, ◌&&◌, Option, none, some, List, [], ◌∷◌, ◌++◌, str_eq, eq_iff,
  leb, is_some, keep, Bool-cases, Option-cases, if◌then◌else◌, arith,
}
use wirescope.Table.{find, find-append}

-- A live session of an enabled user.
pub record IsLive (digest : String → String) (now : ℕ) (token : String) (db : AuthDb)
    (user : SessionUser) : Type 0 where
  pub session : SessionModel
  pub model : UserModel
  pub found : find session_key (digest token) db.sessions ≡ some session
  pub unexpired : now < session.expires_at
  pub owner : find user_key session.user_id db.users ≡ some model
  pub enabled : model.disabled ≡ false
  pub same : user_record model ≡ user

abbrev user_of : Option SessionUser × AuthDb → Option SessionUser
user_of (user, db) = user

-- What a resolved session says, of either branch.
none_or_user :
    (b : Bool) (d d' : AuthDb) (r user : SessionUser)
    → user_of (if b then (none, d) else (some r, d')) ≡ some user
    → (b ≡ false) × (r ≡ user)
none_or_user true d d' r user e = absurd (no_value e)
none_or_user false d d' r user e = (refl, some-injective e)

none_or_rest :
    (b : Bool) (d : AuthDb) (rest : Option SessionUser × AuthDb) (user : SessionUser)
    → user_of (if b then (none, d) else rest) ≡ some user
    → (b ≡ false) × (rest.0 ≡ some user)
none_or_rest true d rest user e = absurd (no_value e)
none_or_rest false d rest user e = (refl, e)

resolve_user-inv :
    (now : ℕ) (s : SessionModel) (o : Option UserModel) (db : AuthDb) (user : SessionUser)
    → (resolve_user now s o db).0 ≡ some user
    → (m : UserModel) × (o ≡ some m) × (m.disabled ≡ false) × (user_record m ≡ user)
resolve_user-inv now s none db user e = absurd (no_value e)
resolve_user-inv now s (some m) db user e =
    let (enabled, same) = none_or_user m.disabled _ _ (user_record m) user e in
    (m, refl, enabled, same)

resolve_session-inv :
    (now : ℕ) (o : Option SessionModel) (db : AuthDb) (user : SessionUser)
    → (resolve_session now o db).0 ≡ some user
    → (s : SessionModel) × (m : UserModel) × (o ≡ some s)
      × (leb s.expires_at now ≡ false)
      × (find user_key s.user_id db.users ≡ some m)
      × (m.disabled ≡ false)
      × (user_record m ≡ user)
resolve_session-inv now none db user e = absurd (no_value e)
resolve_session-inv now (some s) db user e =
    let (late, rest) = none_or_rest (leb s.expires_at now) _ _ user e in
    let (m, owner, enabled, same) =
      resolve_user-inv now s (find user_key s.user_id db.users) db user rest in
    (s, m, refl, late, owner, enabled, same)

-- Only the users count beside the session that is found.
resolve_user-sessions :
    (now : ℕ) (s : SessionModel) (o : Option UserModel) (db db' : AuthDb)
    → (resolve_user now s o db).0 ≡ (resolve_user now s o db').0
resolve_user-sessions now s none db db' = refl
resolve_user-sessions now s (some m) db db' = elim (Bool-cases m.disabled) [
  | inl t ↦ rw t refl
  | inr t ↦ rw t refl
]

resolve_session-sessions :
    (now : ℕ) (o : Option SessionModel) (db : AuthDb) (ss : List SessionModel)
    → (resolve_session now o (record db { sessions = ss })).0 ≡ (resolve_session now o db).0
resolve_session-sessions now none db ss = refl
resolve_session-sessions now (some s) db ss = elim (Bool-cases (leb s.expires_at now)) [
  | inl t ↦ rw t refl
  | inr t ↦ rw t (resolve_user-sessions now s (find user_key s.user_id db.users) _ db)
]

created-inv :
    (b : Bool) (token : String) (added : AuthDb) (r : String × AuthDb)
    → ((if b then granted added else denied session_error) >>= λ a. granted (token, a)) ≡ granted r
    → (b ≡ true) × ((token, added) ≡ r)
created-inv true token added r e = (refl, granted-injective e)
created-inv false token added r e = absurd (not_granted e)

module _ (digest : String → String) (now : ℕ) (token : String) (present : str_eq token "" ≡ false)
    (db : AuthDb) (user : SessionUser) where
  IsLive-resolve_token :
      IsLive digest now token db user → (resolve_token digest now (some token) db).0 ≡ some user
  unfolding resolve_token
  IsLive-resolve_token live =
      let late : leb live.session.expires_at now ≡ false = ground (arith, live.unexpired) in
      rw (present, live.found, late, live.owner, live.enabled) (ap some live.same)

  resolve_token-IsLive :
      (resolve_token digest now (some token) db).0 ≡ some user → IsLive digest now token db user
  unfolding resolve_token
  resolve_token-IsLive e =
      let (s, m, found, late, owner, enabled, same) =
        resolve_session-inv now (find session_key (digest token) db.sessions) db user
          (none_or_rest (str_eq token "") db _ user e).1 in
      record {
        session = s;
        model = m;
        found = found;
        unexpired = ground arith;
        owner = owner;
        enabled = enabled;
        same = same;
      }

  -- A token that is not empty resolves to a user exactly if its digest is the key of a session that
  -- has not expired, whose user is there and not disabled.
  pub resolve_token_iff :
      ((resolve_token digest now (some token) db).0 ≡ some user) ↔ IsLive digest now token db user
  resolve_token_iff = (resolve_token-IsLive, IsLive-resolve_token)

taken : SessionModel → ¬ (false ≡ true)
taken x h = cc

found_new :
    (k : String) (xs : List SessionModel) (s : SessionModel)
    → s.id ≡ k
    → not (is_some (find session_key k xs)) ≡ true
    → find session_key k (xs ++ s ∷ []) ≡ some s
found_new k xs s e free = elim (Option-cases (find session_key k xs)) [
  | inl f ↦ find-append session_key k xs s f ∙ rw ((eq_iff s.id k).1 e) refl
  | inr (x, f) ↦ absurd (taken x (sym (ap (λ o. not (is_some o)) f) ∙ free))
]

-- A token that is not empty and for which create_session made a session resolves, before the session
-- expires, to the user for whom it was made, where that user is there and not disabled.
pub create_session-resolve_token :
    (digest : String → String) (now later ttl : ℕ) (token token' : String) (user : SessionUser)
    (model : UserModel) (db db' : AuthDb)
    → create_session digest now ttl token user db ≡ granted (token', db')
    → str_eq token "" ≡ false
    → find user_key user.id db.users ≡ some model
    → model.disabled ≡ false
    → later < now + ttl
    → (resolve_token digest later (some token') db').0 ≡ some (user_record model)
unfolding create_session insert_session
create_session-resolve_token digest now later ttl token token' user model db db' e present owner
      enabled soon =
    let s : SessionModel = record {
      id = digest token;
      user_id = user.id;
      created_at = now;
      expires_at = now + ttl;
      last_seen_at = now;
    } in
    let (free, same) =
      created-inv
        (is_some (find user_key user.id db.users)
          && not (is_some (find session_key (digest token) db.sessions)))
        token (record db { sessions = db.sessions ++ s ∷ [] }) (token', db') e in
    subst (λ r. (resolve_token digest later (some r.0) r.1).0 ≡ some (user_record model)) same
      (IsLive-resolve_token digest later token present
        (record db { sessions = db.sessions ++ s ∷ [] }) (user_record model)
        (record {
          session = s;
          model = model;
          found = found_new (digest token) db.sessions s refl (conj_right _ _ free);
          unexpired = soon;
          owner = owner;
          enabled = enabled;
          same = refl;
        }))

find-keep :
    (k gone : String) (xs : List SessionModel)
    → find session_key k (keep (λ s. not (str_eq s.id gone)) xs)
      ≡ (if str_eq gone k then none else find session_key k xs)
unfolding find
find-keep k gone [] = ground arith
find-keep k gone (x ∷ xs) =
    ground (arith, eq_iff x.id gone, eq_iff x.id k, eq_iff gone k, find-keep k gone xs)

same_branches : {A : Type 0} (b : Bool) (x : A) → (if b then x else x) ≡ x
same_branches true x = refl
same_branches false x = refl

-- After a token that is not empty was revoked, tokens with its digest resolve to nobody and all
-- others as before.
pub revoke_token-resolve_token :
    (digest : String → String) (now : ℕ) (token other : String) (db : AuthDb)
    → str_eq token "" ≡ false
    → (resolve_token digest now (some other) (revoke_token digest (some token) db)).0 ≡ (
        if str_eq (digest token) (digest other)
        then none
        else (resolve_token digest now (some other) db).0)
unfolding resolve_token revoke_token
revoke_token-resolve_token digest now token other db present = elim (Bool-cases (str_eq other "")) [
  | inl t ↦ rw t (sym (same_branches (str_eq (digest token) (digest other)) none))
  | inr t ↦
      rw (t, present, find-keep (digest other) (digest token) db.sessions)
        (elim (Bool-cases (str_eq (digest token) (digest other))) [
          | inl u ↦ rw u refl
          | inr u ↦
              rw u (resolve_session-sessions now (find session_key (digest other) db.sessions) db _)
        ])
]
