-- ===== src/Auth/Users.antt =====
-- AuthService (auth/service.py): users, their passwords and their sessions.
use Prim.Native.Char.{code}
use Prim.Native.String.{[] as empty_text, ◌∷◌ as ◌∷ₜ◌}
use wirescope.Prelude.{
  ◌≡◌, ℕ, zero, suc, String, Bool, true, false, ◌&&◌, ◌||◌, Option, none, some, List, leb, ◌==◌,
}

pub data Role : Type 0 where
  auditor viewer : Role

pub record SessionUser : Type 0 where
  pub id : String
  pub username : String
  pub role : Role
  pub created_at : ℕ

-- `can_mutate`
abbrev pub can_mutate : SessionUser → Bool
can_mutate u = elim u.role [ Role.auditor ↦ true | Role.viewer ↦ false ]

pub record UserModel : Type 0 where
  pub id : String
  pub username : String
  pub password_hash : String
  pub role : Role
  pub disabled : Bool
  pub created_at : ℕ

pub record SessionModel : Type 0 where
  pub id : String
  pub user_id : String
  pub created_at : ℕ
  pub expires_at : ℕ
  pub last_seen_at : ℕ

pub record AuthDb : Type 0 where
  pub users : List UserModel
  pub sessions : List SessionModel

-- The codes of AuthError, a ValueError of the hashing, and an IntegrityError that is not caught.
pub data AuthError : Type 0 where
  invalid_username invalid_password username_taken invalid_credentials unknown_user user_disabled :
      AuthError
  hash_error session_error : AuthError

pub data Outcome {ℓ} (X : Type ℓ) : Type ℓ where
  granted : X → Outcome X
  denied : AuthError → Outcome X

infixl 5 ◌>>=◌
abbrev pub ◌>>=◌ {ℓ κ} : {X : Type ℓ} {Y : Type κ} → Outcome X → (X → Outcome Y) → Outcome Y
denied e >>= rest = denied e
granted x >>= rest = rest x

abbrev pub require : Bool → AuthError → Outcome Bool
require true e = granted true
require false e = denied e

abbrev pub or_deny {ℓ} : {X : Type ℓ} → AuthError → Option X → Outcome X
or_deny e none = denied e
or_deny e (some x) = granted x

pub granted-injective {ℓ} : {X : Type ℓ} {x y : X} → granted x ≡ granted y → x ≡ y
granted-injective {x} {y} h = cc

pub not_granted {ℓ} : {X : Type ℓ} {x : X} {e : AuthError} → ¬ (denied e ≡ granted x)
not_granted h = cc

abbrev pub user_key : UserModel → String
user_key u = u.id

abbrev pub name_key : UserModel → String
name_key u = u.username

abbrev pub session_key : SessionModel → String
session_key s = s.id

-- `_user_record`
unfoldable pub user_record : UserModel → SessionUser
user_record u = record {
  id = u.id;
  username = u.username;
  role = u.role;
  created_at = u.created_at;
}

-- A letter or a digit of ASCII.
abbrev pub is_alnum : ℕ → Bool
is_alnum n = leb 48 n && leb n 57 || (leb 65 n && leb n 90 || leb 97 n && leb n 122)

-- `[A-Za-z0-9._-]`
abbrev pub is_inner : ℕ → Bool
is_inner n = is_alnum n || (n == 46 || (n == 95 || n == 45))

-- The characters after the first; `n` of them may come before the last.
unfoldable pub inner_match : ℕ → String → Bool
inner_match n empty_text = false
inner_match n (c ∷ₜ empty_text) = is_alnum (code c)
inner_match zero (c ∷ₜ d ∷ₜ s) = false
inner_match (suc n) (c ∷ₜ d ∷ₜ s) = let rest = inner_match n (d ∷ₜ s) in is_inner (code c) && rest

abbrev pub has_two : String → Bool
has_two (c ∷ₜ d ∷ₜ s) = true
has_two _ = false

-- `USERNAME_PATTERN.fullmatch`
unfoldable pub username_matches : String → Bool
unfolding inner_match
username_matches empty_text = false
username_matches (c ∷ₜ s) = is_alnum (code c) && (has_two s && inner_match 62 s)

-- `len(text)`
unfoldable pub text_length : String → ℕ
text_length empty_text = 0
text_length (c ∷ₜ s) = suc (text_length s)

abbrev pub min_password_length : ℕ
min_password_length = 8
