-- ===== src/Scope/Reduced.antt =====
-- What the canonicalization of a scope (engine/scope.py) keeps of its networks.
use wirescope.Prelude.{◌+◌, ◌<◌, ◌≤◌, ◌≡◌, ◌∙◌, ◌⊎◌, true, List, [], ◌∷◌, All, arith}
use wirescope.Prelude.In.{In, All-In, In-any, any-In}
use wirescope.Scope.Canonical.{Follows, IsCanonical, remove_duplicates_and_covered-IsCanonical}
use wirescope.Scope.Confirmed.{All-remove_duplicates_and_covered}
use wirescope.Scope.Covering.{any-remove_duplicates_and_covered}
use wirescope.Scope.Disjoint.{inside_or_after}
use wirescope.Scope.Networks.{IsNetwork, Network, num_addresses, subnet_of}
use wirescope.Scope.Validate.{comes_before, covered_by, remove_duplicates_and_covered, same_network}

-- All addresses of the first network are addresses of the second.
abbrev pub Lies : Network → Network → Type 0
Lies n k =
    (n.version ≡ k.version)
    × (k.network_address ≤ n.network_address)
    × (n.network_address + num_addresses n ≤ k.network_address + num_addresses k)

-- The second network is of a later family, or starts where the first has ended.
abbrev pub Ascends : Network → Network → Type 0
Ascends k n =
    (k.version < n.version)
    ⊎ ((k.version ≡ n.version) × (k.network_address + num_addresses k ≤ n.network_address))

abbrev pub IsAscending : List Network → Type 0
IsAscending [] = Unit
IsAscending (k ∷ ks) = All (Ascends k) ks × IsAscending ks

-- The networks kept of those given.
pub record IsReduced (ns ks : List Network) : Type 0 where
  given : All (λ k. In k ns) ks
  covers : (n : Network) → In n ns → (k : Network) × In k ks × Lies n k
  ascending : IsAscending ks

covered_by-Lies : (n k : Network) → covered_by n k ≡ true → Lies n k
unfolding subnet_of
covered_by-Lies n k h = ground arith

covered_by_refl : (n : Network) → covered_by n n ≡ true
unfolding subnet_of
covered_by_refl n = ground arith

covered_by_trans :
    (m n e : Network) → covered_by n e ≡ true → covered_by m n ≡ true → covered_by m e ≡ true
unfolding subnet_of
covered_by_trans m n e h k = ground arith

same_network-covered_by :
    (m n e : Network) → same_network n e ≡ true → covered_by m n ≡ covered_by m e
unfolding subnet_of num_addresses
same_network-covered_by m n e h = ground arith

Follows-Ascends : (k n : Network) → IsNetwork k → IsNetwork n → Follows k n → Ascends k n
unfolding comes_before subnet_of
Follows-Ascends k n kh nh (before, uncovered) = ground (arith, inside_or_after k n kh nh)

All-Ascends :
    (k : Network) (ks : List Network)
    → IsNetwork k
    → All IsNetwork ks
    → All (Follows k) ks
    → All (Ascends k) ks
All-Ascends k [] kh h f = tt
All-Ascends k (n ∷ ks) kh h f = (Follows-Ascends k n kh h.0 f.0, All-Ascends k ks kh h.1 f.1)

IsCanonical-IsAscending : (ks : List Network) → All IsNetwork ks → IsCanonical ks → IsAscending ks
IsCanonical-IsAscending [] h c = tt
IsCanonical-IsAscending (k ∷ ks) h c =
    (All-Ascends k ks h.0 h.1 c.0, IsCanonical-IsAscending ks h.1 c.1)

-- The networks that remove_duplicates_and_covered keeps of well-formed ones are among those given,
-- and each given network lies in one of them: it has the same version, starts no earlier and ends no
-- later. They are in ascending order by version, and in a version each starts where those before it
-- have ended, or later.
pub remove_duplicates_and_covered-IsReduced :
    (ns : List Network) → All IsNetwork ns → IsReduced ns (remove_duplicates_and_covered ns)
remove_duplicates_and_covered-IsReduced ns h = record {
  given = All-remove_duplicates_and_covered (λ k. In k ns) ns (All-In _ ns (λ n i. i));
  covers = λ n i.
      let (k, j, c) = any-In (covered_by n) (remove_duplicates_and_covered ns) (
        any-remove_duplicates_and_covered (covered_by n) (covered_by_trans n)
          (same_network-covered_by n) ns
        ∙ In-any (covered_by n) n ns i (covered_by_refl n)) in
      (k, j, covered_by-Lies n k c);
  ascending =
      IsCanonical-IsAscending (remove_duplicates_and_covered ns)
        (All-remove_duplicates_and_covered IsNetwork ns h)
        (remove_duplicates_and_covered-IsCanonical ns);
}
