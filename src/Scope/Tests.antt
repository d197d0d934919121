-- ===== src/Scope/Tests.antt =====
-- The scope theorems at a small network.
use wirescope.Prelude.{
  some-injective, no_value, ◌≡◌, refl, subst, inl, inr, String, false, Option, none, some, List, [],
  ◌∷◌, count, str_eq, if_then, if_else, ◌==◌, ◌↔◌, if◌then◌else◌, Bool-cases, arith, All, ℕ,
}
use wirescope.Scope.Networks.{
  has_slash, Network, Address, Ipaddress, IsNetwork, IsAddress, Reads, contains, num_addresses,
  subnet_of,
}
use wirescope.Prelude.Sort.{sort_by}
use wirescope.Scope.Validate.{
  ActiveProfile, ScopeSettings, ValidatedScope, accepted, refused, parse_targets,
  remove_duplicates_and_covered, validate, limit_exceeded,
}
use wirescope.Scope.Disjoint.{count-remove_duplicates_and_covered}
use wirescope.Scope.Accepting.{propose-parse_targets}
use wirescope.Scope.Expanding.{Expanded, expand_connected_network_targets-Expanded}
use wirescope.Scope.Reduced.{IsReduced, remove_duplicates_and_covered-IsReduced}
use wirescope.Scope.Example.{strokes, read_strokes, unary, unary-Reads, unary-Prints}
use wirescope.Scope.Hints.{propose, expand_connected_network_targets}
use wirescope.Scope.Proposing.{IsProposal, propose-IsProposal}
use wirescope.Scope.Permitted.{IsPermitted}
use wirescope.Scope.Proposal.{Peer}
use wirescope.Scope.Reading.{validate_again}
use wirescope.Scope.Confirmed.{IsConfirmed, validate-IsConfirmed}
use wirescope.Scope.Refusals.{Refusal, validate-refused_iff}

-- 10.0.0.0/24, 10.0.0.0/28 and 10.0.0.7
abbrev lan : Network
lan = record { version = 4; network_address = 167772160; prefixlen = 24 }

abbrev part : Network
part = record { version = 4; network_address = 167772160; prefixlen = 28 }

abbrev seven : Address
seven = record { version = 4; value = 167772167 }

abbrev read_network : String → Option Network
read_network s =
    if str_eq s "10.0.0.0/24" then some lan else if str_eq s "10.0.0.0/28" then some part else none

abbrev read_address : String → Option Address
read_address s = if str_eq s "10.0.0.7" then some seven else none

abbrev tiny : Ipaddress
tiny = record {
  ip_network = read_network;
  ip_address = read_address;
  ip_interface = read_network;
  show_network = λ n. if n.prefixlen == 24 then "10.0.0.0/24" else "10.0.0.0/28";
  show_address = λ a. "10.0.0.7";
  strip = λ s. s;
  is_unspecified = λ n. false;
  is_multicast = λ n. false;
  is_loopback = λ n. false;
  is_link_local = λ n. false;
}

abbrev settings : ScopeSettings
settings = record {
  active_discovery_max_targets = 300;
  active_standard_max_targets = 100;
  active_deep_max_targets = 10;
  active_ipv6_max_targets = 5;
  active_allow_large_scopes = false;
}

abbrev asked : List String
asked = "10.0.0.7" ∷ "10.0.0.0/28" ∷ "10.0.0.0/24" ∷ []

abbrev lan_scope : ValidatedScope
lan_scope = record {
  profile = ActiveProfile.discovery;
  targets = record { value = "10.0.0.0/24"; family = 4; single = false; address_count = 256 } ∷ [];
  canonical_targets = "10.0.0.0/24" ∷ [];
  address_families = 4 ∷ [];
  address_count = 256;
  ipv4_limit = 300;
  ipv6_limit = 5;
}

lan_accepted : validate tiny settings asked ActiveProfile.discovery ≡ accepted lan_scope
unfolding validate sort_by subnet_of
lan_accepted = refl

lan_too_large : validate tiny settings asked ActiveProfile.deep ≡ refused limit_exceeded
unfolding validate sort_by subnet_of
lan_too_large = refl

lan-IsNetwork : IsNetwork lan
unfolding num_addresses
lan-IsNetwork = record {
  version = inl refl;
  prefix = omega arith;
  block = 655360;
  aligned = refl;
  bounded = omega arith;
}

part-IsNetwork : IsNetwork part
unfolding num_addresses
part-IsNetwork = record {
  version = inl refl;
  prefix = omega arith;
  block = 10485760;
  aligned = refl;
  bounded = omega arith;
}

read_address-IsAddress : (s : String) (a : Address) → read_address s ≡ some a → IsAddress a
read_address-IsAddress s a e = elim (Bool-cases (str_eq s "10.0.0.7")) [
  | inl t ↦
      subst IsAddress (some-injective (if_then (str_eq s "10.0.0.7") _ t e))
        (record { version = inl refl; bounded = omega arith })
  | inr t ↦ absurd (no_value (if_else (str_eq s "10.0.0.7") _ t e))
]

read_network-IsNetwork : (s : String) (n : Network) → read_network s ≡ some n → IsNetwork n
read_network-IsNetwork s n e = elim (Bool-cases (str_eq s "10.0.0.0/24")) [
  | inl t ↦ subst IsNetwork (some-injective (if_then (str_eq s "10.0.0.0/24") _ t e)) lan-IsNetwork
  | inr t ↦ elim (Bool-cases (str_eq s "10.0.0.0/28")) [
    | inl u ↦
        subst IsNetwork
          (some-injective
            (if_then (str_eq s "10.0.0.0/28") _ u (if_else (str_eq s "10.0.0.0/24") _ t e)))
          part-IsNetwork
    | inr u ↦
        absurd
          (no_value (if_else (str_eq s "10.0.0.0/28") _ u (if_else (str_eq s "10.0.0.0/24") _ t e)))
  ]
]

tiny-Reads : Reads tiny
tiny-Reads = record {
  networks = read_network-IsNetwork;
  addresses = read_address-IsAddress;
  interfaces = read_network-IsNetwork;
}

count-remove_duplicates_and_covered_example :
    count (contains 4 167772167) (remove_duplicates_and_covered (part ∷ lan ∷ [])) ≡ 1
unfolding num_addresses
count-remove_duplicates_and_covered_example =
    count-remove_duplicates_and_covered 4 167772167 (part ∷ lan ∷ [])
      (part-IsNetwork, (lan-IsNetwork, tt))

validate-IsConfirmed_example :
    (networks : List Network) × (parse_targets tiny asked ≡ accepted networks)
    × IsConfirmed tiny settings ActiveProfile.discovery networks lan_scope
validate-IsConfirmed_example =
    validate-IsConfirmed tiny tiny-Reads settings asked ActiveProfile.discovery lan_scope
      lan_accepted

validate-refused_iff_example :
    (validate tiny settings asked ActiveProfile.deep ≡ refused limit_exceeded)
    ↔ Refusal tiny settings asked ActiveProfile.deep limit_exceeded
validate-refused_iff_example =
    validate-refused_iff tiny settings asked ActiveProfile.deep limit_exceeded

-- Two addresses of 0.0.0.16/28, and the network.
abbrev sixteen : Network
sixteen = record { version = 4; network_address = 16; prefixlen = 28 }

abbrev sixteen_text : String
sixteen_text = unary.show_network sixteen

abbrev low_targets : List String
low_targets = unary.show_address (record { version = 4; value = 17 }) ∷ sixteen_text ∷ []

abbrev low_scope : ValidatedScope
low_scope = record {
  profile = ActiveProfile.discovery;
  targets = record { value = sixteen_text; family = 4; single = false; address_count = 16 } ∷ [];
  canonical_targets = sixteen_text ∷ [];
  address_families = 4 ∷ [];
  address_count = 16;
  ipv4_limit = 300;
  ipv6_limit = 5;
}

low_accepted : validate unary settings low_targets ActiveProfile.discovery ≡ accepted low_scope
unfolding validate sort_by subnet_of strokes read_strokes
low_accepted = refl

validate_again_example :
    validate unary settings (sixteen_text ∷ []) ActiveProfile.discovery ≡ accepted low_scope
validate_again_example =
    validate_again unary unary-Reads unary-Prints settings low_targets ActiveProfile.discovery
      low_scope low_accepted

remove_duplicates_and_covered-IsReduced_example :
    IsReduced (part ∷ lan ∷ []) (remove_duplicates_and_covered (part ∷ lan ∷ []))
remove_duplicates_and_covered-IsReduced_example =
    remove_duplicates_and_covered-IsReduced (part ∷ lan ∷ []) (part-IsNetwork, (lan-IsNetwork, tt))

abbrev no_number : String → Option ℕ
no_number s = if str_eq s "20" then some 20 else none

abbrev vlan_peer : Peer
vlan_peer = record { name = "eth0.20@eth0"; ipv4 = sixteen_text ∷ []; ipv6 = [] }

offered_vlan :
    (propose unary no_number settings "eth0" [] (vlan_peer ∷ []) []).canonical_targets
    ≡ sixteen_text ∷ []
unfolding propose sort_by num_addresses strokes read_strokes has_slash
offered_vlan = refl

propose-IsProposal_example :
    IsProposal unary settings (propose unary no_number settings "eth0" [] (vlan_peer ∷ []) [])
propose-IsProposal_example =
    propose-IsProposal unary unary-Reads no_number settings "eth0" [] (vlan_peer ∷ []) []

propose-parse_targets_example :
    (ns : List Network) × (parse_targets unary
        (propose unary no_number settings "eth0" [] (vlan_peer ∷ []) []).canonical_targets
      ≡ accepted ns)
    × All (IsPermitted unary) ns
propose-parse_targets_example =
    propose-parse_targets unary unary-Reads unary-Prints no_number settings "eth0" []
      (vlan_peer ∷ []) []

abbrev typed : List String
typed = unary.show_address (record { version = 4; value = 16 }) ∷ []

expanded : expand_connected_network_targets unary typed (sixteen_text ∷ []) ≡ sixteen_text ∷ []
unfolding expand_connected_network_targets strokes read_strokes num_addresses
expanded = refl

expand_connected_network_targets-Expanded_example :
    Expanded unary
      (sixteen_text ∷ [])
      typed
      (expand_connected_network_targets unary typed (sixteen_text ∷ []))
expand_connected_network_targets-Expanded_example =
    expand_connected_network_targets-Expanded unary unary-Reads unary-Prints (sixteen_text ∷ [])
      typed
