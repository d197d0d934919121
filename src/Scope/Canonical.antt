-- ===== src/Scope/Canonical.antt =====
-- The canonical list of a scope's networks (engine/scope.py): sorted, none covered by another, and a
-- fixed point of the canonicalization.
use wirescope.Prelude.{
  ◌+◌, ◌≤◌, ◌≡◌, refl, sym, ap, ◌∙◌, inl, inr, true, false, List, [], ◌∷◌, ◌++◌, All, All-append,
  any, length, length-append, Bool-cases, arith,
}
use wirescope.Prelude.Sort.{insert_by, sort_by, IsSorted, sort_by-IsSorted}
use wirescope.Scope.Disjoint.{comes_before_total, comes_before_trans}
use wirescope.Scope.Networks.{Network, num_addresses, subnet_of}
use wirescope.Scope.Validate.{
  comes_before, covered_by, distinct, keep_uncovered, remove_duplicates_and_covered, same_network,
}

-- An earlier and a later network.
abbrev pub Follows : Network → Network → Type 0
Follows e n = (comes_before e n ≡ true) × (covered_by n e ≡ false)

abbrev pub IsCanonical : List Network → Type 0
IsCanonical [] = Unit
IsCanonical (n ∷ ns) = All (Follows n) ns × IsCanonical ns

append_one :
    (result : List Network) (n : Network)
    → IsCanonical result
    → All (λ e. Follows e n) result
    → IsCanonical (result ++ n ∷ [])
append_one [] n h k = (tt, tt)
append_one (e ∷ result) n h k =
    (All-append (Follows e) result (n ∷ []) h.0 (k.0, tt), append_one result n h.1 k.1)

uncovered_all :
    (n : Network) (result : List Network)
    → any (covered_by n) result ≡ false
    → All (λ e. comes_before e n ≡ true) result
    → All (λ e. Follows e n) result
uncovered_all n [] u k = tt
uncovered_all n (e ∷ result) u k = ((k.0, ground arith), uncovered_all n result (ground arith) k.1)

abbrev Before : List Network → Network → Type 0
Before result n = All (λ e. comes_before e n ≡ true) result

Before-append :
    (n : Network) (result ns : List Network)
    → All (Before result) ns
    → All (λ m. comes_before n m ≡ true) ns
    → All (Before (result ++ n ∷ [])) ns
Before-append n result [] b a = tt
Before-append n result (m ∷ ns) b a =
    (All-append _ result (n ∷ []) b.0 (a.0, tt), Before-append n result ns b.1 a.1)

keep_uncovered-IsCanonical :
    (result ns : List Network)
    → IsCanonical result
    → IsSorted comes_before ns
    → All (Before result) ns
    → IsCanonical (keep_uncovered result ns)
unfolding keep_uncovered
keep_uncovered-IsCanonical result [] h s b = h
keep_uncovered-IsCanonical result (n ∷ ns) h s b = elim (Bool-cases (any (covered_by n) result)) [
  | inl q ↦ rw q (keep_uncovered-IsCanonical result ns h s.1 b.1)
  | inr q ↦ rw q (
      keep_uncovered-IsCanonical (result ++ n ∷ []) ns
        (append_one result n h (uncovered_all n result q b.0)) s.1
        (Before-append n result ns b.1 s.0))
]

nil-Before : (ns : List Network) → All (Before []) ns
nil-Before [] = tt
nil-Before (n ∷ ns) = (tt, nil-Before ns)

pub remove_duplicates_and_covered-IsCanonical :
    (ns : List Network) → IsCanonical (remove_duplicates_and_covered ns)
unfolding remove_duplicates_and_covered
remove_duplicates_and_covered-IsCanonical ns =
    keep_uncovered-IsCanonical [] (sort_by comes_before (distinct ns)) tt
      (sort_by-IsSorted comes_before comes_before_total comes_before_trans (distinct ns))
      (nil-Before _)

same_network-covered_by : (n m : Network) → same_network n m ≡ true → covered_by m n ≡ true
unfolding subnet_of num_addresses
same_network-covered_by n m h = ground arith

none_same : (n : Network) (ns : List Network) → All (Follows n) ns → any (same_network n) ns ≡ false
none_same n [] h = refl
none_same n (m ∷ ns) h = ground (arith, same_network-covered_by n m, none_same n ns h.1)

distinct_fixed : (ns : List Network) → IsCanonical ns → distinct ns ≡ ns
unfolding distinct
distinct_fixed [] h = refl
distinct_fixed (n ∷ ns) h = rw (distinct_fixed ns h.1, none_same n ns h.0) refl

insert_first :
    (n : Network) (ns : List Network) → All (Follows n) ns → insert_by comes_before n ns ≡ n ∷ ns
unfolding insert_by
insert_first n [] h = refl
insert_first n (m ∷ ns) h = rw (h.0.0) refl

sort_fixed : (ns : List Network) → IsCanonical ns → sort_by comes_before ns ≡ ns
unfolding sort_by
sort_fixed [] h = refl
sort_fixed (n ∷ ns) h = rw (sort_fixed ns h.1) (insert_first n ns h.0)

append_cons :
    (xs : List Network) (y : Network) (zs : List Network) → (xs ++ y ∷ []) ++ zs ≡ xs ++ y ∷ zs
append_cons [] y zs = refl
append_cons (x ∷ xs) y zs = ap (λ l. x ∷ l) (append_cons xs y zs)

append_nil : (xs : List Network) → xs ++ [] ≡ xs
append_nil [] = refl
append_nil (x ∷ xs) = ap (λ l. x ∷ l) (append_nil xs)

abbrev Open : List Network → Network → Type 0
Open result n = All (λ e. covered_by n e ≡ false) result

Open-any : (n : Network) (result : List Network) → Open result n → any (covered_by n) result ≡ false
Open-any n [] h = refl
Open-any n (e ∷ result) h = ground (arith, Open-any n result h.1)

Open-append :
    (n : Network) (result ns : List Network)
    → All (Open result) ns
    → All (Follows n) ns
    → All (Open (result ++ n ∷ [])) ns
Open-append n result [] o f = tt
Open-append n result (m ∷ ns) o f =
    (All-append _ result (n ∷ []) o.0 (f.0.1, tt), Open-append n result ns o.1 f.1)

keep_fixed :
    (result ns : List Network)
    → IsCanonical ns
    → All (Open result) ns
    → keep_uncovered result ns ≡ result ++ ns
unfolding keep_uncovered
keep_fixed result [] h o = sym (append_nil result)
keep_fixed result (n ∷ ns) h o = rw (Open-any n result o.0) (
    keep_fixed (result ++ n ∷ []) ns h.1 (Open-append n result ns o.1 h.0)
    ∙ append_cons result n ns)

nil-Open : (ns : List Network) → All (Open []) ns
nil-Open [] = tt
nil-Open (n ∷ ns) = (tt, nil-Open ns)

pub IsCanonical-remove_duplicates_and_covered :
    (ns : List Network) → IsCanonical ns → remove_duplicates_and_covered ns ≡ ns
unfolding remove_duplicates_and_covered
IsCanonical-remove_duplicates_and_covered ns h =
    rw (distinct_fixed ns h, sort_fixed ns h) (keep_fixed [] ns h (nil-Open ns))

-- Removing duplicates and covered networks a second time changes nothing.
pub remove_duplicates_and_covered_idem :
    (ns : List Network)
    → remove_duplicates_and_covered (remove_duplicates_and_covered ns)
      ≡ remove_duplicates_and_covered ns
remove_duplicates_and_covered_idem ns =
    IsCanonical-remove_duplicates_and_covered _ (remove_duplicates_and_covered-IsCanonical ns)

-- It does not grow.
length-distinct : (ns : List Network) → length (distinct ns) ≤ length ns
unfolding distinct
length-distinct [] = omega arith
length-distinct (n ∷ ns) = ground (arith, length-distinct ns)

length-insert_by :
    (n : Network) (ns : List Network) → length (insert_by comes_before n ns) ≡ length (n ∷ ns)
unfolding insert_by
length-insert_by n [] = refl
length-insert_by n (m ∷ ns) = ground (arith, length-insert_by n ns)

length-sort_by : (ns : List Network) → length (sort_by comes_before ns) ≡ length ns
unfolding sort_by
length-sort_by [] = refl
length-sort_by (n ∷ ns) =
    omega (arith, length-insert_by n (sort_by comes_before ns), length-sort_by ns)

length-keep_uncovered :
    (result ns : List Network) → length (keep_uncovered result ns) ≤ length result + length ns
unfolding keep_uncovered
length-keep_uncovered result [] = omega arith
length-keep_uncovered result (n ∷ ns) = elim (Bool-cases (any (covered_by n) result)) [
  | inl q ↦ rw q (omega (arith, length-keep_uncovered result ns))
  | inr q ↦
      rw q
        (omega (arith, length-keep_uncovered (result ++ n ∷ []) ns, length-append result (n ∷ [])))
]

pub length-remove_duplicates_and_covered :
    (ns : List Network) → length (remove_duplicates_and_covered ns) ≤ length ns
unfolding remove_duplicates_and_covered
length-remove_duplicates_and_covered ns = omega (
  arith,
  length-keep_uncovered [] (sort_by comes_before (distinct ns)),
  length-sort_by (distinct ns),
  length-distinct ns,
)
