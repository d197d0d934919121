-- ===== src/Scope/Confirmed.antt =====
-- What an accepted scope promises (ScopeValidator.validate, engine/scope.py).
use wirescope.Prelude.{
  ◌<◌, ℕ, ◌≤◌, ◌≡◌, sym, if_then, if_else, ◌⊎◌, inl, inr, String, true, false, not, ◌&&◌, List, [],
  ◌∷◌, ◌++◌, any, count, length, All, All-append, All-map, ltb, if◌then◌else◌, Bool-cases, arith,
}
use wirescope.Prelude.Sort.{All-sort_by}
use wirescope.Scope.Disjoint.{All-distinct, count-remove_duplicates_and_covered}
use wirescope.Scope.Permitted.{
  IsPermitted, accepted-injective, refused_not_accepted, parse_targets-IsPermitted,
}
use wirescope.Scope.Networks.{Network, Ipaddress, IsNetwork, Reads, contains}
use wirescope.Scope.Validate.{
  ActiveProfile, comes_before, covered_by, accepted, ScopeSettings, ValidatedScope, >>=-eq-accepted,
  family_count, ipv6_limit, exceeds, is_nil, keep_uncovered, limited, parse_targets, profile_limit,
  remove_duplicates_and_covered, scope_of, validate,
}

All-keep_uncovered {κ} :
    (P : Network → Type κ) (result ns : List Network)
    → All P result
    → All P ns
    → All P (keep_uncovered result ns)
unfolding keep_uncovered
All-keep_uncovered P result [] h k = h
All-keep_uncovered P result (n ∷ ns) h k = elim (Bool-cases (any (covered_by n) result)) [
  | inl e ↦ rw e (All-keep_uncovered P result ns h k.1)
  | inr e ↦
      rw e
        (All-keep_uncovered P (result ++ n ∷ []) ns (All-append P result (n ∷ []) h (k.0, tt)) k.1)
]

pub All-remove_duplicates_and_covered {κ} :
    (P : Network → Type κ) (ns : List Network) → All P ns → All P (remove_duplicates_and_covered ns)
unfolding remove_duplicates_and_covered
All-remove_duplicates_and_covered P ns h =
    All-keep_uncovered P [] _ tt (All-sort_by comes_before P _ (All-distinct P ns h))

-- The scope of these networks: each address that was asked for lies in exactly one of them and no other address
-- in any; none is prohibited, and unless large scopes are allowed the addresses of each family are within its limit.
pub record IsConfirmed (ip : Ipaddress) (settings : ScopeSettings) (profile : ActiveProfile)
    (asked : List Network) (scope : ValidatedScope) : Type 0 where
  pub networks : List Network
  pub result : scope ≡ scope_of ip settings profile networks
  pub permitted : All (IsPermitted ip) networks
  pub exact :
      (version address : ℕ)
      → count (contains version address) networks
        ≡ (if any (contains version address) asked then 1 else 0)
  pub bounded :
      (settings.active_allow_large_scopes ≡ true)
      ⊎ ((family_count 4 networks ≤ profile_limit settings profile)
          × (family_count 6 networks ≤ profile_limit settings profile)
          × (family_count 6 networks ≤ settings.active_ipv6_max_targets))

within :
    (settings : ScopeSettings) (profile : ActiveProfile) (networks : List Network)
    → (not settings.active_allow_large_scopes && exceeds settings profile networks) ≡ false
    → (settings.active_allow_large_scopes ≡ true)
      ⊎ ((family_count 4 networks ≤ profile_limit settings profile)
          × (family_count 6 networks ≤ profile_limit settings profile)
          × (family_count 6 networks ≤ settings.active_ipv6_max_targets))
unfolding ipv6_limit
within settings profile networks h = elim (Bool-cases settings.active_allow_large_scopes) [
  | inl t ↦ inl t
  | inr t ↦ inr ground arith
]

pub limited-scope_of :
    (ip : Ipaddress) (settings : ScopeSettings) (profile : ActiveProfile) (networks : List Network)
    (scope : ValidatedScope)
    → limited ip settings profile networks ≡ accepted scope
    → scope ≡ scope_of ip settings profile networks
unfolding limited
limited-scope_of ip settings profile networks scope e =
    elim (Bool-cases
      (not settings.active_allow_large_scopes && exceeds settings profile networks)) [
        | inl t ↦ absurd (
            refused_not_accepted (
              if_then (not settings.active_allow_large_scopes && exceeds settings profile networks)
                _ t e))
        | inr t ↦ sym (
            accepted-injective (
              if_else (not settings.active_allow_large_scopes && exceeds settings profile networks)
                _ t e))
      ]

limited-IsConfirmed :
    (ip : Ipaddress) (settings : ScopeSettings) (profile : ActiveProfile) (asked : List Network)
    (scope : ValidatedScope)
    → All (IsPermitted ip) asked
    → limited ip settings profile (remove_duplicates_and_covered asked) ≡ accepted scope
    → IsConfirmed ip settings profile asked scope
unfolding limited
limited-IsConfirmed ip settings profile asked scope h e =
    let networks = remove_duplicates_and_covered asked in
    elim (Bool-cases
      (not settings.active_allow_large_scopes && exceeds settings profile networks)) [
        | inl t ↦ absurd (
            refused_not_accepted (
              if_then (not settings.active_allow_large_scopes && exceeds settings profile networks)
                _ t e))
        | inr t ↦ record {
          networks = networks;
          result = sym (
              accepted-injective (
                if_else
                  (not settings.active_allow_large_scopes && exceeds settings profile networks) _ t
                  e));
          permitted = All-remove_duplicates_and_covered (IsPermitted ip) asked h;
          exact = λ version address.
              count-remove_duplicates_and_covered version address asked
                (All-map (IsPermitted ip) IsNetwork asked (λ n p. p.network) h);
          bounded = within settings profile networks t;
        }
      ]

nonempty : (targets : List String) → is_nil targets ≡ false → 0 < length targets
nonempty [] t = absurd (ground arith)
nonempty (s ∷ ss) t = omega arith

-- How a scope was accepted.
pub validate-inv :
    (ip : Ipaddress) (settings : ScopeSettings) (targets : List String) (profile : ActiveProfile)
    (scope : ValidatedScope)
    → validate ip settings targets profile ≡ accepted scope
    → (asked : List Network) × (parse_targets ip targets ≡ accepted asked)
      × (limited ip settings profile (remove_duplicates_and_covered asked) ≡ accepted scope)
      × (0 < length targets)
      × (length targets ≤ 256)
unfolding validate
validate-inv ip settings targets profile scope e = elim (Bool-cases (is_nil targets)) [
  | inl t ↦ absurd (refused_not_accepted (if_then (is_nil targets) _ t e))
  | inr t ↦ elim (Bool-cases (ltb 256 (length targets))) [
    | inl u ↦ absurd (
        refused_not_accepted
          (if_then (ltb 256 (length targets)) _ u (if_else (is_nil targets) _ t e)))
    | inr u ↦
        let (asked, got, left) =
          >>=-eq-accepted (parse_targets ip targets) _
            (if_else (ltb 256 (length targets)) _ u (if_else (is_nil targets) _ t e)) in
        (asked, got, left, nonempty targets t, ground arith)
  ]
]

-- Where ipaddress reads networks and addresses only, a scope that validate accepts is the scope of
-- networks none of which is prohibited. Each address that the targets ask for lies in exactly one of
-- them and no other address in any. Unless large scopes are allowed, the addresses of each family
-- are within the limit of the profile, and those of IPv6 within their own.
pub validate-IsConfirmed :
    (ip : Ipaddress) (reads : Reads ip) (settings : ScopeSettings) (targets : List String)
    (profile : ActiveProfile) (scope : ValidatedScope)
    → validate ip settings targets profile ≡ accepted scope
    → (asked : List Network) × (parse_targets ip targets ≡ accepted asked)
      × IsConfirmed ip settings profile asked scope
validate-IsConfirmed ip reads settings targets profile scope e =
    let (asked, got, left, some_target, few) = validate-inv ip settings targets profile scope e in
    let permitted = parse_targets-IsPermitted ip reads targets asked got in
    (asked, got, limited-IsConfirmed ip settings profile asked scope permitted left)
