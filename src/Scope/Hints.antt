-- ===== src/Scope/Hints.antt =====
-- The sources of a proposal (ScopeValidator.propose, engine/scope.py): assigned prefixes, VLAN
-- interfaces, connected routes; and expand_connected_network_targets.
use Prim.Native.Char.{code}
use Prim.Native.String.{[] as empty_text, ◌∷◌ as ◌∷ₜ◌, ◌++◌ as ◌++ₜ◌}
use wirescope.Prelude.{
  ℕ, String, Bool, true, false, ◌&&◌, ◌||◌, Option, none, some, List, [], ◌∷◌, ◌++◌, str_eq, leb,
  ◌==◌, if◌then◌else◌,
}
use wirescope.Scope.Networks.{Address, Network, Ipaddress, has_slash}
use wirescope.Scope.Proposal.{
  Found, Origin, Peer, ProposedNetwork, RejectedCandidate, Route, ScopeProposal, interface_prefix,
  vlan_hints, route_hints, no_source, eligible_networks, proposal,
}
use wirescope.Scope.Validate.{ScopeSettings}

-- `child.split("@", 1)[0]`
unfoldable pub before_at : String → String
before_at empty_text = empty_text
before_at (c ∷ₜ s) = let rest = before_at s in if code c == 64 then empty_text else c ∷ₜ rest

-- `name[len(prefix):]` of a name that starts with the prefix
unfoldable pub after_prefix : String → String → Option String
after_prefix empty_text name = some name
after_prefix (p ∷ₜ prefix) empty_text = none
after_prefix (p ∷ₜ prefix) (c ∷ₜ name) =
    let rest = after_prefix prefix name in if code p == code c then rest else none

-- An optional value that passes a test.
abbrev pub filter_option {ℓ} : {A : Type ℓ} → (A → Bool) → Option A → Option A
filter_option p none = none
filter_option p (some a) = if p a then some a else none

abbrev pub and_then {ℓ} : {A B : Type ℓ} → Option A → (A → Option B) → Option B
and_then none f = none
and_then (some a) f = f a

-- `vlan_by_iface`, a dictionary in insertion order.
abbrev pub ByInterface : Type 0
ByInterface = List (String × List ProposedNetwork)

-- `vlan_by_iface.setdefault(name, []).extend(networks)`
unfoldable pub extend : String → List ProposedNetwork → ByInterface → ByInterface
extend name networks [] = (name, networks) ∷ []
extend name networks ((k, old) ∷ rest) =
    if str_eq k name then (k, old ++ networks) ∷ rest else (k, old) ∷ extend name networks rest

abbrev pub extend_found : String → List ProposedNetwork → ByInterface → ByInterface
extend_found name [] vlans = vlans
extend_found name (n ∷ ns) vlans = extend name (n ∷ ns) vlans

abbrev pub is_default : String → Bool
is_default dst =
    str_eq dst ""
    || (str_eq dst "default"
        || (str_eq dst "unspecified" || (str_eq dst "0.0.0.0/0" || str_eq dst "::/0")))

-- `_route_destination`
unfoldable pub route_destination : Route → Option String
route_destination route = filter_option (λ dst. if is_default dst then false else true) route.dst

-- `decimal` is the number of a text for which `isdigit` holds.
module _ (ip : Ipaddress) (decimal : String → Option ℕ) (settings : ScopeSettings) where
  -- `_vlan_id_for`
  unfoldable pub vlan_id_for : String → String → Option ℕ
  unfolding before_at after_prefix
  vlan_id_for parent child =
      filter_option (λ v. leb v 4095)
        (and_then (after_prefix (parent ++ₜ ".") (before_at child)) decimal)

  -- The body of the loop over the peers, for a peer on a VLAN or not.
  abbrev pub add_peer :
      Peer → Option ℕ → ByInterface × List RejectedCandidate → ByInterface × List RejectedCandidate
  add_peer peer none so_far = so_far
  add_peer peer (some vlan_id) (vlans, rejected) =
      let o : Origin = record {
        origin = "vlan";
        interface_name = peer.name;
        vlan_id = some vlan_id;
      } in
      let (found, rejected') = eligible_networks ip settings o (peer.ipv4 ++ peer.ipv6) rejected in
      (extend_found peer.name found vlans, rejected')

  unfoldable pub add_peers :
      String
      → List Peer
      → ByInterface × List RejectedCandidate
      → ByInterface × List RejectedCandidate
  unfolding vlan_id_for extend
  add_peers interface_name [] so_far = so_far
  add_peers interface_name (peer ∷ peers) so_far =
      add_peers interface_name peers (add_peer peer (vlan_id_for interface_name peer.name) so_far)

  abbrev pub add_destination : String → Option String → Found → Found
  add_destination interface_name none so_far = so_far
  add_destination interface_name (some destination) (networks, rejected) =
      let o : Origin = record {
        origin = "route";
        interface_name = interface_name;
        vlan_id = none;
      } in
      let (found, rejected') = eligible_networks ip settings o (destination ∷ []) rejected in
      (networks ++ found, rejected')

  -- The loop over the routes.
  unfoldable pub add_routes : String → List Route → Found → Found
  unfolding route_destination
  add_routes interface_name [] so_far = so_far
  add_routes interface_name (route ∷ routes) so_far = add_routes interface_name routes (
      if str_eq route.dev interface_name && (if route.gateway then false else true)
      then add_destination interface_name (route_destination route) so_far
      else so_far)

  -- Connected routes, or nothing.
  abbrev pub from_routes : String → Found → ScopeProposal
  from_routes interface_name ([], rejected) = proposal interface_name no_source [] rejected
  from_routes interface_name (n ∷ ns, rejected) =
      proposal interface_name route_hints (n ∷ ns) rejected

  -- The first VLAN interface with a network, or the routes.
  abbrev pub from_vlans : String → List Route → ByInterface × List RejectedCandidate → ScopeProposal
  from_vlans interface_name routes ([], rejected) =
      from_routes interface_name (add_routes interface_name routes ([], rejected))
  from_vlans interface_name routes ((chosen, networks) ∷ rest, rejected) =
      proposal chosen vlan_hints networks rejected

  -- The assigned prefixes, or the VLAN interfaces.
  abbrev pub from_assigned : String → List Peer → List Route → Found → ScopeProposal
  from_assigned interface_name peers routes ([], rejected) =
      from_vlans interface_name routes (add_peers interface_name peers ([], rejected))
  from_assigned interface_name peers routes (n ∷ ns, rejected) =
      proposal interface_name interface_prefix (n ∷ ns) rejected

  unfoldable pub propose : String → List String → List Peer → List Route → ScopeProposal
  unfolding eligible_networks add_peers add_routes proposal
  propose interface_name assigned peers routes =
      let o : Origin = record {
        origin = "assigned";
        interface_name = interface_name;
        vlan_id = none;
      } in
      from_assigned interface_name peers routes (eligible_networks ip settings o assigned [])

-- `next((network for network in networks if network.network_address == address), None)`
unfoldable pub starting_at : Address → List Network → Option Network
starting_at a [] = none
starting_at a (n ∷ ns) =
    let rest = starting_at a ns in
    if (n.version == a.version) && (n.network_address == a.value) then some n else rest

module _ (ip : Ipaddress) where
  -- The networks of the assigned addresses that can be read.
  unfoldable pub connected : List String → List Network
  connected [] = []
  connected (raw ∷ assigned) = add_read (ip.ip_interface raw) (connected assigned)
    where
      add_read : Option Network → List Network → List Network
      add_read none rest = rest
      add_read (some n) rest = n ∷ rest

  abbrev pub show_match : String → Option Network → String
  show_match value none = value
  show_match value (some n) = ip.show_network n

  abbrev pub expand_address : List Network → String → Option Address → String
  expand_address networks value none = value
  expand_address networks value (some a) = show_match value (starting_at a networks)

  -- A target that is not empty.
  abbrev pub expand_value : List Network → String → String
  expand_value networks value =
      if has_slash value then value else expand_address networks value (ip.ip_address value)

  unfoldable pub expand_targets : List Network → List String → List String
  unfolding starting_at has_slash
  expand_targets networks [] = []
  expand_targets networks (raw ∷ targets) =
      let value = ip.strip raw in
      let rest = expand_targets networks targets in
      if str_eq value "" then rest else expand_value networks value ∷ rest

  unfoldable pub expand_connected_network_targets : List String → List String → List String
  unfolding connected expand_targets
  expand_connected_network_targets targets assigned = expand_targets (connected assigned) targets
