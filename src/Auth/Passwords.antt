-- ===== src/Auth/Passwords.antt =====
-- auth/passwords.py: hashing a password and checking one against what is stored. Bytes are lists of
-- numbers; what `hashlib`, `bytes.hex` and `int` do is a parameter, with `none` where they raise.
use Prim.Native.Char.{Char, code}
use Prim.Native.String.{[] as empty_text, ◌∷◌ as ◌∷ₜ◌}
use wirescope.Prelude.{
  All, ◌<◌, ℕ, zero, suc, ◌≡◌, ◌↔◌, String, Bool, true, false, ◌||◌, Option, none, some, List,
  str_eq, length, ◌==◌, if◌then◌else◌,
}
use wirescope.Prelude.Int.{ℤ, pos, negsuc}

abbrev pub Bytes : Type 0
Bytes = List ℕ

pub record Hashing : Type 0 where
  -- `hashlib.pbkdf2_hmac("sha256", password.encode("utf-8"), salt, iterations, dklen)`
  pub pbkdf2 : String → Bytes → ℕ → ℕ → Option Bytes
  pub hex : Bytes → String
  pub fromhex : String → Option Bytes
  -- `int(text)`
  pub int : String → Option ℤ
  pub compare_digest : Bytes → Bytes → Bool

-- Whether a text has a `$`.
unfoldable pub has_dollar : String → Bool
has_dollar empty_text = false
has_dollar (c ∷ₜ s) = code c == 36 || has_dollar s

abbrev pub in_front : Bool → Char → String → Option (String × String) → Option (String × String)
in_front true c after rest = some ("", after)
in_front false c after none = none
in_front false c after (some (front, back)) = some (c ∷ₜ front, back)

-- The text before the first `$` and the text after it.
unfoldable pub cut : String → Option (String × String)
cut empty_text = none
cut (c ∷ₜ s) = let rest = cut s in in_front (code c == 36) c s rest

-- One text after another.
unfoldable pub join : String → String → String
join empty_text t = t
join (c ∷ₜ s) t = c ∷ₜ join s t

abbrev pub and_then {ℓ κ} : {A : Type ℓ} {B : Type κ} → Option A → (A → Option B) → Option B
and_then none f = none
and_then (some a) f = f a

pub record Stored : Type 0 where
  pub scheme : String
  pub iterations : ℤ
  pub salt : Bytes
  pub expected : Bytes

module _ (hashing : Hashing) where
  -- `stored.split("$", 3)` into four parts, and their values
  unfoldable pub parse_stored : String → Option Stored
  unfolding cut
  parse_stored stored = and_then (cut stored) λ (scheme, rest).
      and_then (cut rest) λ (iteration_text, rest'). and_then (cut rest') λ (salt_hex, digest_hex).
        and_then (hashing.int iteration_text) λ iterations.
          and_then (hashing.fromhex salt_hex) λ salt.
            and_then (hashing.fromhex digest_hex) λ expected. some (record {
              scheme = scheme;
              iterations = iterations;
              salt = salt;
              expected = expected;
            })

  abbrev pub compared : Bytes → Option Bytes → Option Bool
  compared expected none = none
  compared expected (some candidate) = some (hashing.compare_digest candidate expected)

  abbrev pub check_iterations : String → ℤ → Bytes → Bytes → Option Bool
  check_iterations password (negsuc n) salt expected = some false
  check_iterations password (pos zero) salt expected = some false
  check_iterations password (pos (suc n)) salt expected =
      compared expected (hashing.pbkdf2 password salt (suc n) (length expected))

  abbrev pub check_stored : String → Option Stored → Option Bool
  check_stored password none = some false
  check_stored password (some s) =
      if str_eq s.scheme "pbkdf2_sha256"
      then check_iterations password s.iterations s.salt s.expected
      else some false

  -- `none` is a ValueError of the key derivation.
  unfoldable pub verify_password : String → String → Option Bool
  unfolding parse_stored
  verify_password password stored = check_stored password (parse_stored stored)

  -- The stored text.
  unfoldable pub formatted : Bytes → Bytes → String
  formatted salt digest =
      join "pbkdf2_sha256"
        ("$" ∷ₜ join "210000" ("$" ∷ₜ join (hashing.hex salt) ("$" ∷ₜ hashing.hex digest)))

  abbrev pub format_hash : Bytes → Option Bytes → Option String
  format_hash salt none = none
  format_hash salt (some digest) = some (formatted salt digest)

  -- `hash_password(password, salt=salt)`; `none` is a ValueError.
  unfoldable pub hash_password : String → Bytes → Option String
  hash_password password salt =
      if str_eq password "" then none else format_hash salt (hashing.pbkdf2 password salt 210000 32)

-- Numbers below 256, as Python's bytes are.
abbrev pub IsBytes : Bytes → Type 0
IsBytes = All (λ n. n < 256)

-- What the hashing relies on, of bytes alone.
pub record HashLaws (h : Hashing) : Type 0 where
  pub derives :
      (p : String) (salt : Bytes)
      → IsBytes salt
      → (d : Bytes) × (h.pbkdf2 p salt 210000 32 ≡ some d) × (length d ≡ 32) × IsBytes d
  pub hex_plain : (b : Bytes) → IsBytes b → has_dollar (h.hex b) ≡ false
  pub hex_again : (b : Bytes) → IsBytes b → h.fromhex (h.hex b) ≡ some b
  pub int_iterations : h.int "210000" ≡ some (pos 210000)
  pub compares : (a b : Bytes) → IsBytes a → IsBytes b → (h.compare_digest a b ≡ true) ↔ (a ≡ b)
