-- ===== src/Auth/Registration.antt =====
-- A new user (AuthService.create_user, auth/service.py) can log in, and identifiers and names stay unique.
use wirescope.Auth.Accounts.{authenticate, create_user, insert_user}
use wirescope.Auth.Changes.{authenticate-found, or_deny-inv, >>=-eq-granted}
use wirescope.Auth.Hashes.{verify_password-hash_password}
use wirescope.Auth.Passwords.{Bytes, Hashing, HashLaws, IsBytes, hash_password}
use wirescope.Auth.Users.{
  granted-injective, not_granted, AuthDb, Role, SessionUser, UserModel, granted, hash_error,
  invalid_username, invalid_password, min_password_length, name_key, or_deny, require, text_length,
  user_key, user_record, username_matches,
}
use wirescope.Prelude.{
  ℕ, ◌≡◌, refl, ap, subst, ◌∙◌, inl, inr, String, Bool, false, ◌||◌, Option, none, some, [], ◌∷◌,
  ◌++◌, eq_iff, leb, is_some, if_then, if_else, Bool-cases, arith,
}
use wirescope.Table.{find, find-append}
use wirescope.Table.Keys.{Distinct, Distinct-append}

absent : {A : Type 0} (o : Option A) → is_some o ≡ false → o ≡ none
absent none h = refl
absent (some a) h = cc

left_false : (a b : Bool) → (a || b) ≡ false → a ≡ false
left_false a b h = ground arith

right_false : (a b : Bool) → (a || b) ≡ false → b ≡ false
right_false a b h = ground arith

-- A row is inserted where neither its identifier nor its name is taken.
insert_user-inv :
    (u : UserModel) (db db' : AuthDb)
    → insert_user u db ≡ granted db'
    → (find user_key u.id db.users ≡ none)
      × (find name_key u.username db.users ≡ none)
      × ((record db { users = db.users ++ u ∷ [] }) ≡ db')
unfolding insert_user
insert_user-inv u db db' e =
    elim (Bool-cases
      (is_some (find user_key u.id db.users) || is_some (find name_key u.username db.users))) [
        | inl t ↦ absurd (
            not_granted (
              if_then
                (is_some (find user_key u.id db.users)
                  || is_some (find name_key u.username db.users))
                _ t e))
        | inr t ↦ (
          absent _ (left_false _ _ t),
          absent _ (right_false _ _ t),
          granted-injective (
              if_else
                (is_some (find user_key u.id db.users)
                  || is_some (find name_key u.username db.users))
                _ t e),
        )
      ]

module _ (hashing : Hashing) (laws : HashLaws hashing) (strip digest : String → String) where
  -- Where the key derivation answers, derived keys are bytes, printed bytes have no $ and are read
  -- back, and digests are compared byte by byte, the salt is bytes, and identifiers and names of the
  -- users are distinct, after a create_user that returns the new user is authenticated with the
  -- password given, and identifiers and names are still distinct.
  pub create_user-authenticate :
      (now : ℕ) (id : String) (zeros salt : Bytes) (username password : String) (role : Role)
      (db : AuthDb) (user : SessionUser) (db' : AuthDb)
      → IsBytes salt
      → Distinct user_key db.users
      → Distinct name_key db.users
      → create_user hashing strip digest now id salt username password role db ≡ granted (user, db')
      → (authenticate hashing strip digest zeros username password db' ≡ granted user)
        × Distinct user_key db'.users
        × Distinct name_key db'.users
  unfolding create_user
  create_user-authenticate now id zeros salt username password role db user db' salted ids names e =
      let (m, me, e1) =
        >>=-eq-granted (require (username_matches (strip username)) invalid_username) _ e in
      let (l, le, e2) =
        >>=-eq-granted (require (leb min_password_length (text_length password)) invalid_password) _
          e1 in
      let (hash, he, e3) =
        >>=-eq-granted (or_deny hash_error (hash_password hashing password salt)) _ e2 in
      let u : UserModel = record {
        id = id;
        username = strip username;
        password_hash = hash;
        role = role;
        disabled = false;
        created_at = now;
      } in
      let (added, ae, e4) = >>=-eq-granted (insert_user u db) _ e3 in
      let (free_id, free_name, same) = insert_user-inv u db added ae in
      let new : AuthDb = record db { users = db.users ++ u ∷ [] } in
      let found : find name_key (strip username) new.users ≡ some u =
        find-append name_key (strip username) db.users u free_name
        ∙ rw ((eq_iff (strip username) (strip username)).1 refl) refl in
      subst
        (λ r.
          (authenticate hashing strip digest zeros username password r.1 ≡ granted r.0)
          × Distinct user_key r.1.users
          × Distinct name_key r.1.users)
        (ap (λ a. (user_record u, a)) same ∙ granted-injective e4)
        (
          authenticate-found hashing laws strip digest zeros username password new u found
              ((verify_password-hash_password hashing laws password password hash salt salted
                  (or_deny-inv _ _ hash he)).1
                refl)
              refl,
          Distinct-append user_key db.users u free_id ids,
          Distinct-append name_key db.users u free_name names,
        )
