-- ===== src/Auth/Changes.antt =====
-- What a change of a password does (AuthService, auth/service.py).
use wirescope.Auth.Accounts.{authenticate, keep_digest, set_password, survives}
use wirescope.Auth.Hashes.{verify_password-hash_password}
use wirescope.Auth.Passwords.{Bytes, Hashing, HashLaws, IsBytes, hash_password, verify_password}
use wirescope.Auth.Users.{
  granted-injective, AuthDb, AuthError, Outcome, SessionModel, SessionUser, UserModel, denied,
  granted, hash_error, unknown_user, user_disabled, invalid_password, name_key, or_deny, require,
  text_length, user_key, user_record, ◌>>=◌, min_password_length,
}
use wirescope.Prelude.{
  some-injective, not_equal, ◌≡◌, ◌≢◌, ◌⊎◌, refl, sym, ap, subst, ◌∙◌, inl, inr, String, Bool, true,
  false, not, ◌||◌, Option, none, some, List, [], ◌∷◌, str_eq, eq_iff, leb, keep, All, if_then,
  if_else, Bool-cases, text-cases, arith,
}
use wirescope.Table.{find, replace}
use wirescope.Table.Keys.{Distinct, Fresh}

-- What was granted after a check: the check granted.
pub >>=-eq-granted {ℓ κ} :
    {X : Type ℓ} {Y : Type κ} (first : Outcome X) (rest : X → Outcome Y) {y : Y}
    → (first >>= rest) ≡ granted y
    → (x : X) × (first ≡ granted x) × (rest x ≡ granted y)
>>=-eq-granted (denied e) rest h = cc
>>=-eq-granted (granted x) rest h = (x, refl, h)

pub or_deny-inv :
    {A : Type 0} (e : AuthError) (o : Option A) (a : A) → or_deny e o ≡ granted a → o ≡ some a
or_deny-inv e none a h = cc
or_deny-inv e (some b) a h = cc

pub require-inv : (b t : Bool) (e : AuthError) → require b e ≡ granted t → b ≡ true
require-inv true t e h = refl
require-inv false t e h = cc

not-true : (b : Bool) → not b ≡ true → b ≡ false
not-true b h = ground arith

-- How a password was set.
record IsPut (hashing : Hashing) (strip digest : String → String) (salt : Bytes)
    (username password : String) (keep_token : Option String) (db : AuthDb) (user : SessionUser)
    (db' : AuthDb) : Type 0 where
  model : UserModel
  hash : String
  found : find name_key (strip username) db.users ≡ some model
  enabled : model.disabled ≡ false
  hashed : hash_password hashing password salt ≡ some hash
  who : user_record (record model { password_hash = hash }) ≡ user
  state :
      (record {
        users = replace user_key (record model { password_hash = hash }) db.users;
        sessions = keep (survives model.id (keep_digest digest keep_token)) db.sessions;
      })
      ≡ db'

module _ (hashing : Hashing) (strip digest : String → String) where
  set_password-inv :
      (salt : Bytes) (username password : String) (keep_token : Option String) (db : AuthDb)
      (user : SessionUser) (db' : AuthDb)
      → set_password hashing strip digest salt username password keep_token db ≡ granted (user, db')
      → IsPut hashing strip digest salt username password keep_token db user db'
  unfolding set_password
  set_password-inv salt username password keep_token db user db' e =
      let (l, le, e1) =
        >>=-eq-granted (require (leb min_password_length (text_length password)) invalid_password) _
          e in
      let (model, me, e2) =
        >>=-eq-granted (or_deny unknown_user (find name_key (strip username) db.users)) _ e1 in
      let (b, be, e3) = >>=-eq-granted (require (not model.disabled) user_disabled) _ e2 in
      let (hash, he, e4) =
        >>=-eq-granted (or_deny hash_error (hash_password hashing password salt)) _ e3 in
      record {
        model = model;
        hash = hash;
        found = or_deny-inv _ _ model me;
        enabled = not-true model.disabled (require-inv _ b _ be);
        hashed = or_deny-inv _ _ hash he;
        who = ap (λ r. r.0) (granted-injective e4);
        state = ap (λ r. r.1) (granted-injective e4);
      }

-- A row found by its name has an identifier that is not fresh.
found-Fresh :
    (n : String) (us : List UserModel) (m : UserModel) (k : String)
    → find name_key n us ≡ some m
    → Fresh user_key k us
    → k ≢ m.id
unfolding find
found-Fresh n [] m k f h = cc
found-Fresh n (u ∷ us) m k f h = elim (Bool-cases (str_eq u.username n)) [
  | inl t ↦ subst (λ v. k ≢ v.id) (some-injective (if_then (str_eq u.username n) _ t f)) h.0
  | inr t ↦ found-Fresh n us m k (if_else (str_eq u.username n) _ t f) h.1
]

record_id : (u : UserModel) (user : SessionUser) → user_record u ≡ user → u.id ≡ user.id
unfolding user_record
record_id u user e = ap (λ r. r.id) e

-- The row of a user who keeps identifier and name is found by the name.
find_name-replace :
    (n : String) (us : List UserModel) (m new : UserModel)
    → Distinct user_key us
    → find name_key n us ≡ some m
    → new.id ≡ m.id
    → new.username ≡ m.username
    → find name_key n (replace user_key new us) ≡ some new
unfolding find replace
find_name-replace n [] m new d f ei en = cc
find_name-replace n (u ∷ us) m new d f ei en = elim (Bool-cases (str_eq u.username n)) [
  | inl t ↦
      let um : u ≡ m = some-injective (if_then (str_eq u.username n) _ t f) in
      let same_id : str_eq u.id new.id ≡ true =
        (eq_iff u.id new.id).1 (ap (λ v. v.id) um ∙ sym ei) in
      let same_name : str_eq new.username n ≡ true =
        (eq_iff new.username n).1
          (en ∙ sym (ap (λ v. v.username) um) ∙ (eq_iff u.username n).0 t) in
      rw (same_id, same_name) refl
  | inr t ↦
      let f' : find name_key n us ≡ some m = if_else (str_eq u.username n) _ t f in
      let other : str_eq u.id new.id ≡ false =
        not_equal u.id new.id (λ p. found-Fresh n us m u.id f' d.0 (p ∙ ei)) in
      rw (other, t) (find_name-replace n us m new d.1 f' ei en)
]

-- The sessions that are kept.
not_kept : (s t : String) → not (str_eq s t) ≡ true → ¬ (s ≡ t)
not_kept s t h p = ground (arith, eq_iff s t)

by_digest : (s t : String) (b : Bool) → s ≡ t → (not (str_eq s t) || b) ≡ true → b ≡ true
by_digest s t b p h = ground (arith, eq_iff s t)

survives-inv :
    (id : String) (kept : Option String) (s : SessionModel)
    → survives id kept s ≡ true
    → (s.user_id ≢ id) ⊎ (kept ≡ some s.id)
survives-inv id none s h = inl (λ p. not_kept s.user_id id h p)
survives-inv id (some k) s h = elim (text-cases s.user_id id) [
  | inl p ↦ inr ((ap some (sym ((eq_iff s.id k).0 (by_digest s.user_id id (str_eq s.id k) p h)))))
  | inr p ↦ inl p
]

keep-survives :
    (id : String) (kept : Option String) (ss : List SessionModel)
    → All (λ s. (s.user_id ≢ id) ⊎ (kept ≡ some s.id)) (keep (survives id kept) ss)
keep-survives id kept [] = tt
keep-survives id kept (s ∷ ss) = elim (Bool-cases (survives id kept s)) [
  | inl t ↦ rw t (survives-inv id kept s t, keep-survives id kept ss)
  | inr t ↦ rw t (keep-survives id kept ss)
]

module _ (hashing : Hashing) (laws : HashLaws hashing) (strip digest : String → String) where
  pub authenticate-found :
      (zeros : Bytes) (username password : String) (db : AuthDb) (u : UserModel)
      → find name_key (strip username) db.users ≡ some u
      → verify_password hashing password u.password_hash ≡ some true
      → u.disabled ≡ false
      → authenticate hashing strip digest zeros username password db ≡ granted (user_record u)
  unfolding authenticate
  authenticate-found zeros username password db u f v e = rw (f, v, e) refl

  -- Where the key derivation answers, derived keys are bytes, printed bytes have no $ and are read
  -- back, and digests are compared byte by byte, the salt is bytes, and user identifiers are
  -- distinct, after a set_password that returns the user is authenticated with the new password, and
  -- every session that is left belongs to another user or is the one to be kept.
  pub set_password-authenticate :
      (zeros salt : Bytes) (username password : String) (keep_token : Option String) (db : AuthDb)
      (user : SessionUser) (db' : AuthDb)
      → IsBytes salt
      → Distinct user_key db.users
      → set_password hashing strip digest salt username password keep_token db ≡ granted (user, db')
      → (authenticate hashing strip digest zeros username password db' ≡ granted user)
        × All
            (λ s. (s.user_id ≢ user.id) ⊎ (keep_digest digest keep_token ≡ some s.id))
            db'.sessions
  set_password-authenticate zeros salt username password keep_token db user db' salted d e =
      let p =
        set_password-inv hashing strip digest salt username password keep_token db user db' e in
      let new : UserModel = record p.model { password_hash = p.hash } in
      let same : new.id ≡ user.id = record_id new user p.who in
      (
        subst (λ st. authenticate hashing strip digest zeros username password st ≡ granted user)
            p.state
            (authenticate-found zeros username password _ new
                (find_name-replace (strip username) db.users p.model new d p.found refl refl)
                ((verify_password-hash_password hashing laws password password p.hash salt salted
                    p.hashed).1
                  refl)
                p.enabled
              ∙ ap granted p.who),
        subst
            (λ st.
              All (λ s. (s.user_id ≢ user.id) ⊎ (keep_digest digest keep_token ≡ some s.id))
                st.sessions)
            p.state
            (subst
              (λ k.
                All (λ s. (s.user_id ≢ k) ⊎ (keep_digest digest keep_token ≡ some s.id))
                  (keep (survives p.model.id (keep_digest digest keep_token)) db.sessions))
              same (keep-survives p.model.id (keep_digest digest keep_token) db.sessions)),
      )
