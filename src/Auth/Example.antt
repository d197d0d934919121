-- ===== src/Auth/Example.antt =====
-- A small key derivation for the examples: it repeats the length of the password
-- as a byte, and reads bytes only. Bytes are printed in
-- unary.
use Prim.Native.Char.{code}
use Prim.Native.String.{[] as empty_text, ◌∷◌ as ◌∷ₜ◌}
use wirescope.Auth.Passwords.{Bytes, IsBytes, Hashing, HashLaws, has_dollar}
use wirescope.Auth.Users.{text_length}
use wirescope.Prelude.{
  Option, none, ltb, ◌<◌, ◌%◌, ℕ, zero, suc, ◌≡◌, refl, ap, ◌∙◌, subst, String, Bool, true, false,
  ◌&&◌, none, some, [], ◌∷◌, str_eq, length, ◌==◌, if◌then◌else◌, arith,
}
use wirescope.Prelude.Int.{pos}
use wirescope.Scope.Example.{strokes}

abbrev pub fill : ℕ → ℕ → Bytes
fill zero b = []
fill (suc n) b = b ∷ fill n b

length-fill : (n b : ℕ) → length (fill n b) ≡ n
length-fill zero b = refl
length-fill (suc n) b = ap suc (length-fill n b)

abbrev pub same_bytes : Bytes → Bytes → Bool
same_bytes [] [] = true
same_bytes [] (y ∷ ys) = false
same_bytes (x ∷ xs) [] = false
same_bytes (x ∷ xs) (y ∷ ys) = (x == y) && same_bytes xs ys

equal_bytes : (a b : Bytes) → same_bytes a b ≡ true → a ≡ b
equal_bytes [] [] h = refl
equal_bytes [] (y ∷ ys) h = cc
equal_bytes (x ∷ xs) [] h = cc
equal_bytes (x ∷ xs) (y ∷ ys) h =
    let first : x ≡ y = ground arith in
    let rest : same_bytes xs ys ≡ true = ground arith in rw (first, equal_bytes xs ys rest) refl

bytes_equal : (a : Bytes) → same_bytes a a ≡ true
bytes_equal [] = refl
bytes_equal (x ∷ xs) = ground (arith, bytes_equal xs)

unfoldable pub hex : Bytes → String
unfolding strokes
hex [] = ""
hex (b ∷ bs) = strokes b (hex bs)

abbrev add_stroke : Bytes → Bytes
add_stroke [] = []
add_stroke (b ∷ bs) = suc b ∷ bs

unfoldable pub read_bytes : String → Bytes
read_bytes empty_text = []
read_bytes (c ∷ₜ s) = let rest = read_bytes s in if code c == 46 then 0 ∷ rest else add_stroke rest

read_bytes-strokes : (n : ℕ) (s : String) → read_bytes (strokes n s) ≡ n ∷ read_bytes s
unfolding strokes read_bytes
read_bytes-strokes zero s = refl
read_bytes-strokes (suc n) s = ap add_stroke (read_bytes-strokes n s)

read_bytes-hex : (bs : Bytes) → read_bytes (hex bs) ≡ bs
unfolding hex read_bytes
read_bytes-hex [] = refl
read_bytes-hex (b ∷ bs) = read_bytes-strokes b (hex bs) ∙ ap (λ l. b ∷ l) (read_bytes-hex bs)

has_dollar-strokes : (n : ℕ) (s : String) → has_dollar s ≡ false → has_dollar (strokes n s) ≡ false
unfolding strokes has_dollar
has_dollar-strokes zero s h = h
has_dollar-strokes (suc n) s h = has_dollar-strokes n s h

has_dollar-hex : (bs : Bytes) → has_dollar (hex bs) ≡ false
unfolding hex has_dollar
has_dollar-hex [] = refl
has_dollar-hex (b ∷ bs) = has_dollar-strokes b (hex bs) (has_dollar-hex bs)

abbrev are_bytes : Bytes → Bool
are_bytes [] = true
are_bytes (b ∷ bs) = ltb b 256 && are_bytes bs

-- A number of 256 or more is no byte.
abbrev bytes_only : Bytes → Option Bytes
bytes_only bs = if are_bytes bs then some bs else none

IsBytes-are_bytes : (bs : Bytes) → IsBytes bs → are_bytes bs ≡ true
IsBytes-are_bytes [] h = refl
IsBytes-are_bytes (b ∷ bs) h = ground (arith, IsBytes-are_bytes bs)

pub fill-IsBytes : (n b : ℕ) → b < 256 → IsBytes (fill n b)
fill-IsBytes zero b h = tt
fill-IsBytes (suc n) b h = (h, fill-IsBytes n b h)

hex_again : (bs : Bytes) → IsBytes bs → bytes_only (read_bytes (hex bs)) ≡ some bs
hex_again bs h = rw (read_bytes-hex bs, IsBytes-are_bytes bs h) refl

byte_bound : (n : ℕ) → n % 256 < 256
byte_bound n = omega arith

abbrev pub lengths : Hashing
lengths = record {
  pbkdf2 = λ p salt iterations dklen. some (fill dklen (text_length p % 256));
  hex = hex;
  fromhex = λ s. bytes_only (read_bytes s);
  int = λ s. if str_eq s "210000" then some (pos 210000) else none;
  compare_digest = same_bytes;
}

pub lengths-HashLaws : HashLaws lengths
lengths-HashLaws = record {
  derives = λ p salt h. (
    fill 32 (text_length p % 256),
    refl,
    length-fill 32 (text_length p % 256),
    fill-IsBytes 32 (text_length p % 256) (byte_bound (text_length p)),
  );
  hex_plain = λ b h. has_dollar-hex b;
  hex_again = hex_again;
  int_iterations = refl;
  compares =
      λ a b ha hb. (equal_bytes a b, λ p. subst (λ c. same_bytes a c ≡ true) p (bytes_equal a));
}
