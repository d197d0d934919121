-- ===== src/Scope/Disjoint.antt =====
-- The networks of a validated scope (engine/scope.py) have no address in common.
use native.Mathlib.Nat.{lt_of_mul-lt-mul_right, mul-le-mul_right, pow-suc, mul_assoc}
use wirescope.Prelude.{
  ℕ, zero, suc, ◌+◌, ◌-◌, ◌*◌, ◌^◌, ◌<◌, ◌≤◌, ◌≡◌, refl, sym, ◌∙◌, ap, subst, ◌⊎◌, inl, inr, Bool,
  true, false, List, [], ◌∷◌, ◌++◌, any, count, All, All-append, leb, ltb, ◌==◌, if◌then◌else◌,
  Bool-cases, arith,
}
use wirescope.Prelude.Sort.{sort_by, All-sort_by, IsSorted, sort_by-IsSorted}
use wirescope.Scope.Networks.{Network, IsNetwork, contains, num_addresses, subnet_of, max_prefixlen}
use wirescope.Scope.Covering.{remove_duplicates_and_covered-contains}
use wirescope.Scope.Validate.{
  comes_before, covered_by, distinct, keep_uncovered, remove_duplicates_and_covered, same_network,
}

suc_mul : (t p : ℕ) → suc p * t ≡ p * t + t
suc_mul t p = omega arith

-- Two multiples of a number are at least that number apart.
apart : (t p q : ℕ) → p * t < q * t → p * t + t ≤ q * t
apart t p q h = omega (
  arith,
  suc_mul t p,
  mul-le-mul_right {m = suc p} {n = q} t (lt_of_mul-lt-mul_right t {m = p} {n = q} h),
)

apart_from : (t p y z : ℕ) → y ≡ z * t → p * t < y → p * t + t ≤ y
apart_from t p y z e h = rw e (apart t p z (subst (λ w. p * t < w) e h))

-- A power of two is a multiple of each smaller one.
power_add : (d j : ℕ) → 2 ^ (d + j) ≡ 2 ^ d * 2 ^ j
power_add zero j = grind arith
power_add (suc d) j = grind (arith, power_add d j, pow-suc 2 (d + j), pow-suc 2 d)

power_multiple : (i j : ℕ) → j ≤ i → 2 ^ i ≡ 2 ^ (i - j) * 2 ^ j
power_multiple i j h =
    let e : i ≡ (i - j) + j = omega arith in ap (λ n. 2 ^ n) e ∙ power_add (i - j) j

-- A multiple of the larger block is one of the smaller.
multiple : (p i j : ℕ) → j ≤ i → p * 2 ^ i ≡ (p * 2 ^ (i - j)) * 2 ^ j
multiple p i j h = rw (power_multiple i j h) (sym (mul_assoc p (2 ^ (i - j)) (2 ^ j)))

below : (a b i j : ℕ) → leb j i ≡ false → a ≤ b → ((a ≡ b) → j ≤ i) → a < b
below a b i j e le same = elim (Bool-cases (a == b)) [
  | inl q ↦ absurd (ground (arith, same (ground arith)))
  | inr q ↦ ground arith
]

-- Of two aligned blocks, the one that starts later lies in the other or after it.
nested :
    (p q i j : ℕ)
    → p * 2 ^ i ≤ q * 2 ^ j
    → ((p * 2 ^ i ≡ q * 2 ^ j) → j ≤ i)
    → (q * 2 ^ j + 2 ^ j ≤ p * 2 ^ i + 2 ^ i) ⊎ (p * 2 ^ i + 2 ^ i ≤ q * 2 ^ j)
nested p q i j le same = elim (Bool-cases (leb j i)) [
  | inl e ↦ elim (Bool-cases (ltb (q * 2 ^ j) (p * 2 ^ i + 2 ^ i))) [
    | inl c ↦ inl (
        apart_from (2 ^ j) q (p * 2 ^ i + 2 ^ i) (suc p * 2 ^ (i - j))
          (sym (suc_mul (2 ^ i) p) ∙ multiple (suc p) i j (ground arith)) (ground arith))
    | inr c ↦ inr (ground arith)
  ]
  | inr e ↦ inr (
      apart_from (2 ^ i) p (q * 2 ^ j) (q * 2 ^ (j - i)) (multiple q j i (ground arith))
        (below (p * 2 ^ i) (q * 2 ^ j) i j e le same))
]

blocks :
    (a b p q i j : ℕ)
    → a ≡ p * 2 ^ i
    → b ≡ q * 2 ^ j
    → a ≤ b
    → ((a ≡ b) → j ≤ i)
    → (b + 2 ^ j ≤ a + 2 ^ i) ⊎ (a + 2 ^ i ≤ b)
blocks a b p q i j ea eb = rw (ea, eb) (nested p q i j)

shorter : (m n a b : ℕ) → m ≡ n → a ≤ b → n - b ≤ m - a
shorter m n a b e h = omega arith

-- Of two networks of a family in order, the second lies in the first or after it.
module _ (e n : Network) (eh : IsNetwork e) (nh : IsNetwork n) (same : e.version ≡ n.version) where
  pub inside_or_after :
      e.network_address ≤ n.network_address
      → ((e.network_address ≡ n.network_address) → e.prefixlen ≤ n.prefixlen)
      → (n.network_address + num_addresses n ≤ e.network_address + num_addresses e)
        ⊎ (e.network_address + num_addresses e ≤ n.network_address)
  unfolding num_addresses
  inside_or_after le tie =
      blocks e.network_address n.network_address eh.block nh.block
        (max_prefixlen e.version - e.prefixlen) (max_prefixlen n.version - n.prefixlen) eh.aligned
        nh.aligned le
        (λ t.
          shorter (max_prefixlen e.version) (max_prefixlen n.version) e.prefixlen n.prefixlen
            (ap max_prefixlen same) (tie t))

  covered_by_first :
      comes_before e n ≡ true
      → (v x : ℕ) → contains v x e ≡ true
      → contains v x n ≡ true
      → covered_by n e ≡ true
  unfolding comes_before subnet_of
  covered_by_first h v x ce cn = ground (arith, inside_or_after)

pub comes_before_total : (a b : Network) → comes_before a b ≡ false → comes_before b a ≡ true
unfolding comes_before
comes_before_total a b h = ground arith

pub comes_before_trans :
    (a b c : Network) → comes_before a b ≡ true → comes_before b c ≡ true → comes_before a c ≡ true
unfolding comes_before
comes_before_trans a b c h k = ground arith

pub All-distinct {κ} : (P : Network → Type κ) (ns : List Network) → All P ns → All P (distinct ns)
unfolding distinct
All-distinct P [] h = tt
All-distinct P (n ∷ ns) h = elim (Bool-cases (any (same_network n) (distinct ns))) [
  | inl e ↦ rw e (All-distinct P ns h.1)
  | inr e ↦ rw e (h.0, All-distinct P ns h.1)
]

module _ {A : Type 0} (p : A → Bool) where
  count_none : (xs : List A) → any p xs ≡ false → count p xs ≡ 0
  count_none [] h = refl
  count_none (x ∷ xs) h = ground (arith, count_none xs)

  count_some : (xs : List A) → any p xs ≡ true → 1 ≤ count p xs
  count_some [] h = ground arith
  count_some (x ∷ xs) h = ground (arith, count_some xs)

  count-append :
      (xs : List A) (x : A) → count p (xs ++ x ∷ []) ≡ count p xs + (if p x then 1 else 0)
  count-append [] x = ground arith
  count-append (y ∷ xs) x = ground (arith, count-append xs x)

-- What the loop keeps: the networks of the result come before those that are left.
abbrev Before : List Network → Network → Type 0
Before result n = All (λ e. IsNetwork e × (comes_before e n ≡ true)) result

Before-append :
    (n : Network) (result ns : List Network)
    → IsNetwork n
    → All (Before result) ns
    → All (λ m. comes_before n m ≡ true) ns
    → All (Before (result ++ n ∷ [])) ns
Before-append n result [] nh before after = tt
Before-append n result (m ∷ ns) nh before after = (
  All-append _ result (n ∷ []) before.0 ((nh, after.0), tt),
  Before-append n result ns nh before.1 after.1,
)

nil-Before : (ns : List Network) → All (Before []) ns
nil-Before [] = tt
nil-Before (n ∷ ns) = (tt, nil-Before ns)

exactly :
    {A : Type 0} (p : A → Bool) (xs : List A) (b : Bool)
    → any p xs ≡ b
    → count p xs ≤ 1
    → count p xs ≡ (if b then 1 else 0)
exactly p xs true e c = omega (arith, count_some p xs e)
exactly p xs false e c = count_none p xs e

module _ (v x : ℕ) where
  same_version :
      (e n : Network) → contains v x e ≡ true → contains v x n ≡ true → e.version ≡ n.version
  same_version e n ce cn = ground arith

  covered_by-any :
      (n : Network) (result : List Network)
      → IsNetwork n
      → Before result n
      → contains v x n ≡ true
      → any (contains v x) result ≡ true
      → any (covered_by n) result ≡ true
  covered_by-any n [] nh h cn a = ground arith
  covered_by-any n (e ∷ result) nh h cn a = elim (Bool-cases (contains v x e)) [
    | inl ce ↦
        ground (arith, covered_by_first e n h.0.0 nh (same_version e n ce cn) h.0.1 v x ce cn)
    | inr ce ↦ ground (arith, covered_by-any n result nh h.1 cn)
  ]

  appended :
      (n : Network) (result : List Network)
      → IsNetwork n
      → Before result n
      → any (covered_by n) result ≡ false
      → count (contains v x) result ≤ 1
      → count (contains v x) (result ++ n ∷ []) ≤ 1
  appended n result nh h u c = elim (Bool-cases (contains v x n)) [
    | inl cn ↦ elim (Bool-cases (any (contains v x) result)) [
      | inl a ↦ absurd (ground (arith, covered_by-any n result nh h cn a))
      | inr a ↦
          ground (arith, count-append (contains v x) result n, count_none (contains v x) result a)
    ]
    | inr cn ↦ ground (arith, count-append (contains v x) result n)
  ]

  count-keep_uncovered :
      (result ns : List Network)
      → All IsNetwork ns
      → IsSorted comes_before ns
      → All (Before result) ns
      → count (contains v x) result ≤ 1
      → count (contains v x) (keep_uncovered result ns) ≤ 1
  unfolding keep_uncovered
  count-keep_uncovered result [] nh sorted before c = c
  count-keep_uncovered result (n ∷ ns) nh sorted before c =
      elim (Bool-cases (any (covered_by n) result)) [
        | inl q ↦ rw q (count-keep_uncovered result ns nh.1 sorted.1 before.1 c)
        | inr q ↦ rw q (
            count-keep_uncovered (result ++ n ∷ []) ns nh.1 sorted.1
              (Before-append n result ns nh.0 before.1 sorted.0)
              (appended n result nh.0 before.0 q c))
      ]

  at_most_one :
      (ns : List Network)
      → All IsNetwork ns
      → count (contains v x) (remove_duplicates_and_covered ns) ≤ 1
  unfolding remove_duplicates_and_covered
  at_most_one ns h =
      count-keep_uncovered [] (sort_by comes_before (distinct ns))
        (All-sort_by comes_before IsNetwork (distinct ns) (All-distinct IsNetwork ns h))
        (sort_by-IsSorted comes_before comes_before_total comes_before_trans (distinct ns))
        (nil-Before (sort_by comes_before (distinct ns))) (omega arith)

  -- Of the networks that remove_duplicates_and_covered keeps of well-formed ones, exactly one
  -- contains an address if one of the given networks does, and none otherwise.
  pub count-remove_duplicates_and_covered :
      (ns : List Network)
      → All IsNetwork ns
      → count (contains v x) (remove_duplicates_and_covered ns)
        ≡ (if any (contains v x) ns then 1 else 0)
  count-remove_duplicates_and_covered ns h =
      exactly (contains v x) (remove_duplicates_and_covered ns) (any (contains v x) ns)
        (remove_duplicates_and_covered-contains v x ns) (at_most_one ns h)
