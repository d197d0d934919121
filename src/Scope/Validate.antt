-- ===== src/Scope/Validate.antt =====
-- ScopeValidator.validate (engine/scope.py).
use wirescope.Prelude.{
  ℕ, ◌+◌, String, Bool, true, false, ◌&&◌, ◌||◌, not, Option, none, some, List, [], ◌∷◌, ◌++◌, map,
  any, leb, ltb, ◌==◌, length, ◌≡◌, refl, ◌⊎◌, inl, inr, if◌then◌else◌,
}
use wirescope.Prelude.Sort.{sort_by}
use wirescope.Scope.Networks.{
  Network, Address, Ipaddress, max_prefixlen, num_addresses, subnet_of, host_network, has_slash,
}

pub data ActiveProfile : Type 0 where
  discovery standard deep : ActiveProfile

pub data ScopeValidationCode : Type 0 where
  empty invalid_target prohibited_target too_many_expressions limit_exceeded : ScopeValidationCode

-- What a check returns, or the code of the ScopeValidationError that it raises.
pub data Checked {ℓ} (X : Type ℓ) : Type ℓ where
  accepted : X → Checked X
  refused : ScopeValidationCode → Checked X

infixl 5 ◌>>=◌
abbrev pub ◌>>=◌ {ℓ κ} : {X : Type ℓ} {Y : Type κ} → Checked X → (X → Checked Y) → Checked Y
refused code >>= rest = refused code
accepted value >>= rest = rest value

-- What was accepted after a check: the check accepted.
pub >>=-eq-accepted {ℓ κ} :
    {X : Type ℓ} {Y : Type κ} (check : Checked X) (rest : X → Checked Y) {y : Y}
    → (check >>= rest) ≡ accepted y
    → (x : X) × (check ≡ accepted x) × (rest x ≡ accepted y)
>>=-eq-accepted (refused code) rest e = cc
>>=-eq-accepted (accepted x) rest e = (x, refl, e)

-- What was refused after a check: by the check or by what follows.
pub >>=-eq-refused {ℓ κ} :
    {X : Type ℓ} {Y : Type κ} (check : Checked X) (rest : X → Checked Y)
    {code : ScopeValidationCode}
    → (check >>= rest) ≡ refused code
    → (check ≡ refused code) ⊎ ((x : X) × (check ≡ accepted x) × (rest x ≡ refused code))
>>=-eq-refused (refused other) rest e = inl cc
>>=-eq-refused (accepted x) rest e = inr (x, refl, e)

pub record ScopeTarget : Type 0 where
  pub value : String
  pub family : ℕ
  pub single : Bool
  pub address_count : ℕ

pub record ValidatedScope : Type 0 where
  pub profile : ActiveProfile
  pub targets : List ScopeTarget
  pub canonical_targets : List String
  pub address_families : List ℕ
  pub address_count : ℕ
  pub ipv4_limit : ℕ
  pub ipv6_limit : ℕ

-- The settings that the validator reads (config/settings.py).
pub record ScopeSettings : Type 0 where
  pub active_discovery_max_targets : ℕ
  pub active_standard_max_targets : ℕ
  pub active_deep_max_targets : ℕ
  pub active_ipv6_max_targets : ℕ
  pub active_allow_large_scopes : Bool

-- `_profile_limit`
unfoldable pub profile_limit : ScopeSettings → ActiveProfile → ℕ
profile_limit s ActiveProfile.discovery = s.active_discovery_max_targets
profile_limit s ActiveProfile.standard = s.active_standard_max_targets
profile_limit s ActiveProfile.deep = s.active_deep_max_targets

-- Python's `min` and `max` of two numbers.
abbrev pub min_of : ℕ → ℕ → ℕ
min_of a b = if leb a b then a else b

abbrev pub max_of : ℕ → ℕ → ℕ
max_of a b = if leb b a then a else b

abbrev pub or_invalid : Option Network → Checked Network
or_invalid none = refused invalid_target
or_invalid (some n) = accepted n

abbrev pub host : Option Address → Option Network
host none = none
host (some a) = some (host_network a)

-- `_parse_target`, the network that is read.
abbrev pub read_target : Ipaddress → String → Option Network
read_target ip value = if has_slash value then ip.ip_network value else host (ip.ip_address value)

-- A prefix of nothing, the unspecified address, and multicast are refused.
unfoldable pub prohibit : Ipaddress → Network → Checked Network
prohibit ip n =
    if (n.prefixlen == 0) || (ip.is_unspecified n || ip.is_multicast n)
    then refused prohibited_target
    else accepted n

-- `_parse_target`
unfoldable pub parse_target : Ipaddress → String → Checked Network
unfolding prohibit has_slash
parse_target ip raw = do
  let value = ip.strip raw
  network ← or_invalid (read_target ip value)
  prohibit ip network

-- The loop over the raw targets.
unfoldable pub parse_targets : Ipaddress → List String → Checked (List Network)
unfolding parse_target
parse_targets ip [] = accepted []
parse_targets ip (raw ∷ rest) = do
  network ← parse_target ip raw
  networks ← parse_targets ip rest
  accepted (network ∷ networks)

abbrev pub same_network : Network → Network → Bool
same_network a b =
    (a.version == b.version)
    && ((a.network_address == b.network_address) && (a.prefixlen == b.prefixlen))

-- `set(networks)`
unfoldable pub distinct : List Network → List Network
distinct [] = []
distinct (n ∷ ns) = let rest = distinct ns in if any (same_network n) rest then rest else n ∷ rest

-- `(item.version, int(item.network_address), item.prefixlen)` in order
unfoldable pub comes_before : Network → Network → Bool
comes_before a b =
    ltb a.version b.version
    || ((a.version == b.version)
        && (ltb a.network_address b.network_address
            || ((a.network_address == b.network_address) && leb a.prefixlen b.prefixlen)))

abbrev pub covered_by : Network → Network → Bool
covered_by n existing = (n.version == existing.version) && subnet_of n existing

-- The loop of `_remove_duplicates_and_covered`
unfoldable pub keep_uncovered : List Network → List Network → List Network
keep_uncovered result [] = result
keep_uncovered result (n ∷ ordered) =
    keep_uncovered (if any (covered_by n) result then result else result ++ n ∷ []) ordered

unfoldable pub remove_duplicates_and_covered : List Network → List Network
unfolding distinct comes_before keep_uncovered
remove_duplicates_and_covered networks =
    keep_uncovered [] (sort_by comes_before (distinct networks))

-- `family_counts[family]`
unfoldable pub family_count : ℕ → List Network → ℕ
unfolding num_addresses
family_count family [] = 0
family_count family (n ∷ ns) =
    let rest = family_count family ns in
    if n.version == family then num_addresses n + rest else rest

unfoldable pub ipv6_limit : ScopeSettings → ActiveProfile → ℕ
unfolding profile_limit
ipv6_limit s p = min_of (profile_limit s p) s.active_ipv6_max_targets

abbrev pub exceeds : ScopeSettings → ActiveProfile → List Network → Bool
exceeds s p ns =
    ltb (profile_limit s p) (family_count 4 ns) || ltb (ipv6_limit s p) (family_count 6 ns)

-- `_display_value`
unfoldable pub display_value : Ipaddress → Network → String
display_value ip n =
    if n.prefixlen == max_prefixlen n.version
    then ip.show_address (record { version = n.version; value = n.network_address })
    else ip.show_network n

unfoldable pub scope_target : Ipaddress → Network → ScopeTarget
unfolding display_value num_addresses
scope_target ip n = record {
  value = display_value ip n;
  family = n.version;
  single = n.prefixlen == max_prefixlen n.version;
  address_count = num_addresses n;
}

-- `sorted({target.family ...})`, of the two families
unfoldable pub families : List Network → List ℕ
families ns =
    (if any (λ n. n.version == 4) ns then 4 ∷ [] else [])
    ++ (if any (λ n. n.version == 6) ns then 6 ∷ [] else [])

-- The scope of networks that passed.
unfoldable pub scope_of : Ipaddress → ScopeSettings → ActiveProfile → List Network → ValidatedScope
unfolding scope_target families family_count ipv6_limit
scope_of ip settings profile networks = record {
  profile = profile;
  targets = map (scope_target ip) networks;
  canonical_targets = map (λ t. t.value) (map (scope_target ip) networks);
  address_families = families networks;
  address_count = family_count 4 networks + family_count 6 networks;
  ipv4_limit = profile_limit settings profile;
  ipv6_limit = ipv6_limit settings profile;
}

abbrev pub is_nil {ℓ} : {X : Type ℓ} → List X → Bool
is_nil [] = true
is_nil (_ ∷ _) = false

-- The limits of the two families, and the scope.
unfoldable pub limited :
    Ipaddress → ScopeSettings → ActiveProfile → List Network → Checked ValidatedScope
unfolding scope_of
limited ip settings profile networks =
    if not settings.active_allow_large_scopes && exceeds settings profile networks
    then refused limit_exceeded
    else accepted (scope_of ip settings profile networks)

unfoldable pub validate :
    Ipaddress → ScopeSettings → List String → ActiveProfile → Checked ValidatedScope
unfolding parse_targets remove_duplicates_and_covered limited
validate ip settings targets profile =
    if is_nil targets
    then refused empty
    else if ltb 256 (length targets)
    then refused too_many_expressions
    else parse_targets ip targets >>= λ parsed.
        limited ip settings profile (remove_duplicates_and_covered parsed)
