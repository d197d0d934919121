-- ===== src/Scope/Example.antt =====
-- A small `ipaddress` for the examples, with addresses of 32 and 128 bits: versions, addresses and
-- prefixes are written in unary, a network with a slash in front.
use Prim.Native.Char.{code}
use Prim.Native.String.{[] as empty_text, ◌∷◌ as ◌∷ₜ◌}
use wirescope.Prelude.{
  ltb, ◌^◌, some-injective, no_value, ℕ, zero, suc, ◌/◌, ◌%◌, ◌≡◌, refl, ap, ◌∙◌, subst, inl, inr,
  String, Bool, true, false, ◌&&◌, ◌||◌, Option, none, some, leb, ◌==◌, if_then, if_else,
  if◌then◌else◌, Bool-cases, arith,
}
use wirescope.Scope.Networks.{
  Address, IsAddress, IsNetwork, Network, Ipaddress, Reads, has_slash, max_prefixlen, num_addresses,
}
use native.Mathlib.Nat.{mul-mod_left, mod-add-div'}
use wirescope.Scope.Reading.{Prints}

-- `n` strokes and a stop in front of a text.
unfoldable pub strokes : ℕ → String → String
strokes zero s = "." ∷ₜ s
strokes (suc n) s = "|" ∷ₜ strokes n s

abbrev read_stroke : Bool → Option (ℕ × String) → Option (ℕ × String)
read_stroke true (some (n, s)) = some (suc n, s)
read_stroke _ _ = none

unfoldable pub read_strokes : String → Option (ℕ × String)
read_strokes empty_text = none
read_strokes (c ∷ₜ s) =
    let rest = read_strokes s in
    if code c == 46 then some (0, s) else read_stroke (code c == 124) rest

read_strokes-strokes : (n : ℕ) (s : String) → read_strokes (strokes n s) ≡ some (n, s)
unfolding strokes read_strokes
read_strokes-strokes zero s = refl
read_strokes-strokes (suc n) s = rw (read_strokes-strokes n s) refl

has_slash-strokes : (n : ℕ) (s : String) → has_slash s ≡ false → has_slash (strokes n s) ≡ false
unfolding strokes has_slash
has_slash-strokes zero s h = h
has_slash-strokes (suc n) s h = has_slash-strokes n s h

abbrev and_then {ℓ} : {A B : Type ℓ} → Option A → (A → Option B) → Option B
and_then none f = none
and_then (some a) f = f a

pub and_then-inv :
    {A B : Type 0} (o : Option A) (f : A → Option B) (b : B)
    → and_then o f ≡ some b
    → (a : A) × (f a ≡ some b)
and_then-inv none f b e = cc
and_then-inv (some a) f b e = (a, e)

abbrev is_version : ℕ → Bool
is_version v = v == 4 || v == 6

abbrev is_network : Network → Bool
is_network n =
    is_version n.version
    && (leb n.prefixlen (max_prefixlen n.version)
        && (n.network_address % num_addresses n == 0
            && ltb n.network_address (2 ^ max_prefixlen n.version)))

abbrev checked : Network → Option Network
checked n = if is_network n then some n else none

abbrev is_address : Address → Bool
is_address a = is_version a.version && ltb a.value (2 ^ max_prefixlen a.version)

abbrev checked_address : Address → Option Address
checked_address a = if is_address a then some a else none

abbrev read_prefix : String → Option Network
read_prefix empty_text = none
read_prefix (c ∷ₜ s) = and_then (read_strokes s) λ (v, s1). and_then (read_strokes s1) λ (a, s2).
    and_then (read_strokes s2)
      λ (p, s3). checked (record { version = v; network_address = a; prefixlen = p })

abbrev read_address : String → Option Address
read_address s = and_then (read_strokes s) λ (v, s1).
    and_then (read_strokes s1) λ (a, s2). checked_address (record { version = v; value = a })

abbrev pub unary : Ipaddress
unary = record {
  ip_network = read_prefix;
  ip_address = read_address;
  ip_interface = read_prefix;
  show_network = λ n. "/" ∷ₜ strokes n.version (strokes n.network_address (strokes n.prefixlen ""));
  show_address = λ a. strokes a.version (strokes a.value "");
  strip = λ s. s;
  is_unspecified = λ n. false;
  is_multicast = λ n. false;
  is_loopback = λ n. false;
  is_link_local = λ n. false;
}

network-of : (n : Network) → is_network n ≡ true → IsNetwork n
network-of n t = record {
  version = ground arith;
  prefix = ground arith;
  block = n.network_address / num_addresses n;
  aligned =
      let e : n.network_address % num_addresses n ≡ 0 = ground arith in
      omega (arith, mod-add-div' n.network_address (num_addresses n), e);
  bounded = ground arith;
}

of-network : (n : Network) → IsNetwork n → is_network n ≡ true
of-network n h =
    let e : n.network_address % num_addresses n ≡ 0 =
      ap (λ a. a % num_addresses n) h.aligned ∙ mul-mod_left h.block (num_addresses n) in
    ground (arith, e, h.version, h.prefix, h.bounded)

checked-IsNetwork : (n m : Network) → checked n ≡ some m → IsNetwork m
checked-IsNetwork n m e = elim (Bool-cases (is_network n)) [
  | inl t ↦ subst IsNetwork (some-injective (if_then (is_network n) _ t e)) (network-of n t)
  | inr t ↦ absurd (no_value (if_else (is_network n) _ t e))
]

checked_address-IsAddress : (a b : Address) → checked_address a ≡ some b → IsAddress b
checked_address-IsAddress a b e = elim (Bool-cases (is_address a)) [
  | inl t ↦
      subst IsAddress (some-injective (if_then (is_address a) _ t e))
        (record { version = ground arith; bounded = ground arith })
  | inr t ↦ absurd (no_value (if_else (is_address a) _ t e))
]

read_prefix-IsNetwork : (s : String) (n : Network) → read_prefix s ≡ some n → IsNetwork n
read_prefix-IsNetwork empty_text n e = cc
read_prefix-IsNetwork (c ∷ₜ s) n e =
    let ((v, s1), e1) = and_then-inv (read_strokes s) _ n e in
    let ((a, s2), e2) = and_then-inv (read_strokes s1) _ n e1 in
    let ((p, s3), e3) = and_then-inv (read_strokes s2) _ n e2 in
    checked-IsNetwork (record { version = v; network_address = a; prefixlen = p }) n e3

read_address-IsAddress : (s : String) (n : Address) → read_address s ≡ some n → IsAddress n
read_address-IsAddress s n e =
    let ((v, s1), e1) = and_then-inv (read_strokes s) _ n e in
    let ((a, s2), e2) = and_then-inv (read_strokes s1) _ n e1 in
    checked_address-IsAddress (record { version = v; value = a }) n e2

pub unary-Reads : Reads unary
unary-Reads = record {
  networks = read_prefix-IsNetwork;
  addresses = read_address-IsAddress;
  interfaces = read_prefix-IsNetwork;
}

is_address-of : (a : Address) → IsAddress a → is_address a ≡ true
is_address-of a h = ground (arith, h.version, h.bounded)

read_prefix-again : (n : Network) → IsNetwork n → read_prefix (unary.show_network n) ≡ some n
read_prefix-again n h =
    rw
      (
        read_strokes-strokes n.version _,
        read_strokes-strokes n.network_address _,
        read_strokes-strokes n.prefixlen "",
        of-network n h,
      )
      refl

slash_first : (s : String) → has_slash ("/" ∷ₜ s) ≡ true
unfolding has_slash
slash_first s = refl

no_slash : has_slash "" ≡ false
unfolding has_slash
no_slash = refl

pub unary-Prints : Prints unary
unary-Prints = record {
  network_slash = λ n h. slash_first _;
  network_strip = λ n h. refl;
  network_again = read_prefix-again;
  address_slash = λ a h. has_slash-strokes a.version _ (has_slash-strokes a.value "" no_slash);
  address_strip = λ a h. refl;
  address_again = λ a h.
      rw (read_strokes-strokes a.version _, read_strokes-strokes a.value "", is_address-of a h)
        refl;
}
