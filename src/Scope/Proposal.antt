-- ===== src/Scope/Proposal.antt =====
-- ScopeValidator.propose and its helpers (engine/scope.py): the networks that an operator is offered.
use Prim.Native.Char.{code}
use wirescope.Prelude.{
  ℕ, String, Bool, ◌&&◌, ◌||◌, not, Option, none, some, List, [], ◌∷◌, ◌++◌, map, any, str_eq, leb,
  ltb, ◌==◌, if◌then◌else◌,
}
use wirescope.Prelude.Sort.{sort_by}
use wirescope.Scope.Networks.{Network, Ipaddress, has_slash, num_addresses}
use wirescope.Scope.Validate.{
  ScopeSettings, ScopeValidationCode, Checked, accepted, refused, limit_exceeded, display_value,
  host, max_of, min_of, or_invalid, prohibit, ◌>>=◌,
}

pub data ScopeProposalSource : Type 0 where
  interface_prefix vlan_hints route_hints no_source : ScopeProposalSource

pub record ProposedNetwork : Type 0 where
  pub cidr : String
  pub origin : String
  pub assigned : Option String
  pub vlan_id : Option ℕ
  pub interface : Option String

pub record RejectedCandidate : Type 0 where
  pub value : String
  pub code : String

pub record ScopeProposal : Type 0 where
  pub interface : String
  pub source : ScopeProposalSource
  pub networks : List ProposedNetwork
  pub canonical_targets : List String
  pub assigned_addresses : List String
  pub vlan_ids : List ℕ
  pub rejected : List RejectedCandidate

-- An entry of `peers`, with what `get` finds under the keys.
pub record Peer : Type 0 where
  pub name : String
  pub ipv4 : List String
  pub ipv6 : List String

-- An entry of `routes`; `gateway` is whether one is given.
pub record Route : Type 0 where
  pub dev : String
  pub gateway : Bool
  pub dst : Option String

-- The values of the enumeration.
abbrev pub code_value : ScopeValidationCode → String
code_value ScopeValidationCode.empty = "empty_scope"
code_value ScopeValidationCode.invalid_target = "invalid_target"
code_value ScopeValidationCode.prohibited_target = "prohibited_target"
code_value ScopeValidationCode.too_many_expressions = "too_many_scope_expressions"
code_value ScopeValidationCode.limit_exceeded = "scope_limit_exceeded"

-- `_proposal_limit`
unfoldable pub proposal_limit : ScopeSettings → ℕ → ℕ
proposal_limit s version =
    let limit =
      max_of (max_of s.active_discovery_max_targets s.active_standard_max_targets)
        s.active_deep_max_targets in
    if version == 6 then min_of limit s.active_ipv6_max_targets else limit

-- `_assigned_network`, the network that is read.
abbrev pub read_assigned : Ipaddress → String → Option Network
read_assigned ip value =
    if has_slash value then ip.ip_interface value else host (ip.ip_address value)

-- `_assigned_network`
unfoldable pub assigned_network : Ipaddress → String → Checked Network
unfolding prohibit
assigned_network ip raw = or_invalid (read_assigned ip (ip.strip raw)) >>= prohibit ip

-- What a candidate came to: a network, or the code under which it is rejected.
pub data Judged : Type 0 where
  eligible : Network → Judged
  not_eligible : String → Judged

abbrev pub too_large : ScopeSettings → Network → Bool
too_large s n =
    not s.active_allow_large_scopes && ltb (proposal_limit s n.version) (num_addresses n)

unfoldable pub judge_network : Ipaddress → ScopeSettings → Checked Network → Judged
unfolding proposal_limit num_addresses
judge_network ip s (refused code) = not_eligible (code_value code)
judge_network ip s (accepted n) =
    if ip.is_loopback n || ip.is_link_local n
    then not_eligible "not_global_unicast"
    else if too_large s n
    then not_eligible (code_value limit_exceeded)
    else eligible n

-- The test of one candidate in `_eligible_networks`.
unfoldable pub judge : Ipaddress → ScopeSettings → String → Judged
unfolding assigned_network judge_network
judge ip s value = judge_network ip s (assigned_network ip value)

-- What a call of `_eligible_networks` says about every network that it finds.
pub record Origin : Type 0 where
  pub origin : String
  pub interface_name : String
  pub vlan_id : Option ℕ

abbrev pub proposed : Ipaddress → Origin → String → Network → ProposedNetwork
proposed ip o value n = record {
  cidr = display_value ip n;
  origin = o.origin;
  assigned = if str_eq o.origin "assigned" then some value else none;
  vlan_id = o.vlan_id;
  interface = some o.interface_name;
}

-- The networks found so far, and the list of rejected candidates that the calls share.
abbrev pub Found : Type 0
Found = List ProposedNetwork × List RejectedCandidate

abbrev pub add_judged : Ipaddress → Origin → String → Judged → Found → Found
add_judged ip o value (eligible n) (found, rejected) =
    (found ++ proposed ip o value n ∷ [], rejected)
add_judged ip o value (not_eligible c) (found, rejected) =
    (found, rejected ++ record { value = value; code = c } ∷ [])

-- The loop of `_eligible_networks`
unfoldable pub eligible_from : Ipaddress → ScopeSettings → Origin → List String → Found → Found
unfolding judge display_value
eligible_from ip s o [] so_far = so_far
eligible_from ip s o (raw ∷ values) so_far =
    let value = ip.strip raw in
    eligible_from ip s o values
      (if str_eq value "" then so_far else add_judged ip o value (judge ip s value) so_far)

unfoldable pub eligible_networks :
    Ipaddress → ScopeSettings → Origin → List String → List RejectedCandidate → Found
unfolding eligible_from
eligible_networks ip s o values rejected = eligible_from ip s o values ([], rejected)

-- The loop of `_proposal` over `seen` and `unique`; what was seen is what was kept.
unfoldable pub unique_from : List ProposedNetwork → List ProposedNetwork → List ProposedNetwork
unique_from unique [] = unique
unique_from unique (item ∷ items) =
    unique_from (if any (λ p. str_eq p.cidr item.cidr) unique then unique else unique ++ item ∷ [])
      items

-- `[item.assigned for item in unique if item.assigned]`
unfoldable pub assigned_of : List ProposedNetwork → List String
assigned_of [] = []
assigned_of (p ∷ ps) = add_assigned p.assigned (assigned_of ps)
  where
    add_assigned : Option String → List String → List String
    add_assigned none rest = rest
    add_assigned (some a) rest = if str_eq a "" then rest else a ∷ rest

-- `{item.vlan_id for item in unique if item.vlan_id is not None}`
unfoldable pub vlan_set : List ProposedNetwork → List ℕ
vlan_set [] = []
vlan_set (p ∷ ps) = add_vlan p.vlan_id (vlan_set ps)
  where
    add_vlan : Option ℕ → List ℕ → List ℕ
    add_vlan none rest = rest
    add_vlan (some v) rest = if any (λ w. v == w) rest then rest else v ∷ rest

-- `_proposal`
unfoldable pub proposal :
    String → ScopeProposalSource → List ProposedNetwork → List RejectedCandidate → ScopeProposal
unfolding unique_from assigned_of vlan_set
proposal interface_name source networks rejected =
    let unique = unique_from [] networks in
    record {
      interface = interface_name;
      source = source;
      networks = unique;
      canonical_targets = map (λ p. p.cidr) unique;
      assigned_addresses = assigned_of unique;
      vlan_ids = sort_by leb (vlan_set unique);
      rejected = rejected;
    }
