-- ===== src/Auth/Hashes.antt =====
-- A password is verified against its own hash (auth/passwords.py).
use Prim.Native.Char.{code}
use Prim.Native.String.{[] as empty_text, ◌∷◌ as ◌∷ₜ◌}
use wirescope.Prelude.{
  some-injective, no_value, ◌≡◌, ◌↔◌, refl, sym, ap, ◌∙◌, String, true, false, some, str_eq, length,
  ◌==◌, arith, inl, inr, Bool-cases, if_then, if_else,
}
use wirescope.Prelude.Int.{pos}
use wirescope.Auth.Passwords.{
  Bytes, IsBytes, HashLaws, Hashing, cut, format_hash, formatted, has_dollar, hash_password, join,
  parse_stored, verify_password,
}

cut-join : (s t : String) → has_dollar s ≡ false → cut (join s ("$" ∷ₜ t)) ≡ some (s, t)
unfolding has_dollar cut join
cut-join empty_text t h = refl
cut-join (c ∷ₜ s) t h =
    let first : (code c == 36) ≡ false = ground arith in
    let later : has_dollar s ≡ false = ground arith in rw (first, cut-join s t later) refl

module _ (h : Hashing) (laws : HashLaws h) where
  parse_formatted :
      (salt digest : Bytes)
      → IsBytes salt
      → IsBytes digest
      → parse_stored h (formatted h salt digest)
        ≡ some (record {
          scheme = "pbkdf2_sha256";
          iterations = pos 210000;
          salt = salt;
          expected = digest;
        })
  unfolding parse_stored has_dollar formatted
  parse_formatted salt digest sb db =
      rw
        (
          cut-join "pbkdf2_sha256" (join "210000" ("$" ∷ₜ join (h.hex salt) ("$" ∷ₜ h.hex digest)))
              refl,
          cut-join "210000" (join (h.hex salt) ("$" ∷ₜ h.hex digest)) refl,
          cut-join (h.hex salt) (h.hex digest) (laws.hex_plain salt sb),
          laws.int_iterations,
          laws.hex_again salt sb,
          laws.hex_again digest db,
        )
        refl

  -- What is stored for a password.
  hash_password-formatted :
      (p stored : String) (salt digest : Bytes)
      → h.pbkdf2 p salt 210000 32 ≡ some digest
      → hash_password h p salt ≡ some stored
      → formatted h salt digest ≡ stored
  unfolding hash_password
  hash_password-formatted p stored salt digest d e = elim (Bool-cases (str_eq p "")) [
    | inl t ↦ absurd (no_value (if_then (str_eq p "") _ t e))
    | inr t ↦ some-injective (sym (ap (format_hash h salt) d) ∙ if_else (str_eq p "") _ t e)
  ]

  checked :
      (q : String) (salt expected candidate : Bytes)
      → IsBytes salt
      → IsBytes expected
      → length expected ≡ 32
      → h.pbkdf2 q salt 210000 32 ≡ some candidate
      → verify_password h q (formatted h salt expected) ≡ some (h.compare_digest candidate expected)
  unfolding verify_password
  checked q salt expected candidate sb eb len got =
      rw (parse_formatted salt expected sb eb, len, got) refl

  -- Where the key derivation answers, derived keys are bytes, printed bytes have no $ and are read
  -- back, and digests are compared byte by byte, and the salt is bytes, a password is verified
  -- against a hash that hash_password returned exactly if the key derivation gives the same for it
  -- as for the password that was hashed.
  pub verify_password-hash_password :
      (p q stored : String) (salt : Bytes)
      → IsBytes salt
      → hash_password h p salt ≡ some stored
      → (verify_password h q stored ≡ some true)
        ↔ (h.pbkdf2 q salt 210000 32 ≡ h.pbkdf2 p salt 210000 32)
  verify_password-hash_password p q stored salt sb e =
      let (d, got, len, bytes) = laws.derives p salt sb in
      let (d', got', len', bytes') = laws.derives q salt sb in
      let same =
        ap (verify_password h q) (sym (hash_password-formatted p stored salt d got e))
        ∙ checked q salt d d' sb bytes len got' in
      (
        λ v.
            got'
            ∙ ap some ((laws.compares d' d bytes' bytes).0 (some-injective (sym same ∙ v)))
            ∙ sym got,
        λ k.
            same
            ∙ ap some ((laws.compares d' d bytes' bytes).1 (some-injective (sym got' ∙ k ∙ got))),
      )
