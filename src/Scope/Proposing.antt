-- ===== src/Scope/Proposing.antt =====
-- What ScopeValidator.propose returns (engine/scope.py).
use Prim.Native.String.{◌++◌ as ◌++ₜ◌}
use wirescope.Prelude.{
  ℕ, ◌≤◌, ◌≡◌, refl, inl, inr, String, true, false, ◌&&◌, Option, none, some, List, [], ◌∷◌, ◌++◌,
  All, All-append, any, str_eq, leb, ◌==◌, if_both, if◌then◌else◌, Bool-cases, Option-cases, arith,
  map, All-map,
}
use wirescope.Prelude.Sort.{All-sort_by}
use wirescope.Scope.Hints.{
  ByInterface, and_then, add_destination, add_peer, add_peers, add_routes, after_prefix, before_at,
  extend, extend_found, filter_option, propose, route_destination, vlan_id_for, from_assigned,
  from_vlans, from_routes,
}
use wirescope.Scope.Networks.{Ipaddress, Reads}
use wirescope.Scope.Proposal.{
  Found, Peer, ProposedNetwork, RejectedCandidate, Route, ScopeProposal, ScopeProposalSource,
  no_source, interface_prefix, vlan_hints, route_hints, proposal, unique_from, vlan_set,
}
use wirescope.Scope.Validate.{ScopeSettings}
use wirescope.Table.Keys.{Distinct, Distinct-append}
use wirescope.Table.{find}
use wirescope.Scope.Offers.{IsOffer, eligible_networks-IsOffer}

-- No two entries of the loop's result show the same network.
module _ {κ} (P : ProposedNetwork → Type κ) where
  All-unique_from :
      (unique items : List ProposedNetwork)
      → All P unique
      → All P items
      → All P (unique_from unique items)
  unfolding unique_from
  All-unique_from unique [] h k = h
  All-unique_from unique (item ∷ items) h k =
      All-unique_from
        (if any (λ p. str_eq p.cidr item.cidr) unique then unique else unique ++ item ∷ []) items
        (if_both (All P) (any (λ p. str_eq p.cidr item.cidr) unique) h
          (All-append P unique (item ∷ []) h (k.0, tt)))
        k.1

abbrev pub cidr_key : ProposedNetwork → String
cidr_key p = p.cidr

none_shown :
    (k : String) (ps : List ProposedNetwork)
    → any (λ p. str_eq p.cidr k) ps ≡ false
    → find cidr_key k ps ≡ none
unfolding find
none_shown k [] h = refl
none_shown k (p ∷ ps) h = ground (arith, none_shown k ps)

Distinct-unique_from :
    (unique items : List ProposedNetwork)
    → Distinct cidr_key unique
    → Distinct cidr_key (unique_from unique items)
unfolding unique_from
Distinct-unique_from unique [] h = h
Distinct-unique_from unique (item ∷ items) h =
    elim (Bool-cases (any (λ p. str_eq p.cidr item.cidr) unique)) [
      | inl t ↦ rw t (Distinct-unique_from unique items h)
      | inr t ↦ rw t (
          Distinct-unique_from _ items
            (Distinct-append cidr_key unique item (none_shown item.cidr unique t) h))
    ]

vlan_set-bound :
    (ps : List ProposedNetwork)
    → All (λ p. (v : ℕ) → p.vlan_id ≡ some v → v ≤ 4095) ps
    → All (λ v. v ≤ 4095) (vlan_set ps)
unfolding vlan_set
vlan_set-bound [] h = tt
vlan_set-bound (p ∷ ps) h = elim (Option-cases p.vlan_id) [
  | inl e ↦ rw e (vlan_set-bound ps h.1)
  | inr (v, e) ↦ rw e (
      if_both (All (λ w. w ≤ 4095)) (any (λ w. v == w) (vlan_set ps)) (vlan_set-bound ps h.1)
        (h.0 v e, vlan_set-bound ps h.1))
]

-- A proposal of networks that may be offered, each shown once.
pub record IsProposal (ip : Ipaddress) (settings : ScopeSettings) (p : ScopeProposal) : Type 0 where
  pub offers : All (IsOffer ip settings) p.networks
  pub unique : Distinct cidr_key p.networks
  pub targets : p.canonical_targets ≡ map cidr_key p.networks
  pub vlans : All (λ v. v ≤ 4095) p.vlan_ids

filter_option-bound : (o : Option ℕ) (v : ℕ) → filter_option (λ w. leb w 4095) o ≡ some v → v ≤ 4095
filter_option-bound none v e = cc
filter_option-bound (some w) v e = ground arith

module _ (ip : Ipaddress) (reads : Reads ip) (decimal : String → Option ℕ)
    (settings : ScopeSettings) where
  proposal-IsProposal :
      (name : String) (from : ScopeProposalSource) (networks : List ProposedNetwork)
      (rejected : List RejectedCandidate)
      → All (IsOffer ip settings) networks
      → IsProposal ip settings (proposal name from networks rejected)
  unfolding proposal
  proposal-IsProposal name from networks rejected h =
      let offers = All-unique_from (IsOffer ip settings) [] networks tt h in
      record {
        offers = offers;
        unique = Distinct-unique_from [] networks tt;
        targets = refl;
        vlans =
            All-sort_by leb _ _
              (vlan_set-bound _ (All-map (IsOffer ip settings) _ _ (λ p u. u.vlan) offers));
      }

  abbrev AreOffers : ByInterface → Type 0
  AreOffers = All (λ e. All (IsOffer ip settings) e.1)

  extend-AreOffers :
      (name : String) (ns : List ProposedNetwork) (vlans : ByInterface)
      → All (IsOffer ip settings) ns
      → AreOffers vlans
      → AreOffers (extend name ns vlans)
  unfolding extend
  extend-AreOffers name ns [] h k = (h, tt)
  extend-AreOffers name ns ((key, old) ∷ rest) h k =
      if_both AreOffers (str_eq key name) (All-append (IsOffer ip settings) old ns k.0 h, k.1)
        (k.0, extend-AreOffers name ns rest h k.1)

  extend_found-AreOffers :
      (name : String) (ns : List ProposedNetwork) (vlans : ByInterface)
      → All (IsOffer ip settings) ns
      → AreOffers vlans
      → AreOffers (extend_found name ns vlans)
  extend_found-AreOffers name [] vlans h k = k
  extend_found-AreOffers name (n ∷ ns) vlans h k = extend-AreOffers name (n ∷ ns) vlans h k

  vlan_id_for-bound :
      (parent child : String) (v : ℕ)
      → vlan_id_for ip decimal settings parent child ≡ some v
      → v ≤ 4095
  unfolding vlan_id_for
  vlan_id_for-bound parent child v e =
      filter_option-bound (and_then (after_prefix (parent ++ₜ ".") (before_at child)) decimal) v e

  add_peer-AreOffers :
      (peer : Peer) (id : Option ℕ) (so_far : ByInterface × List RejectedCandidate)
      → ((v : ℕ) → id ≡ some v → v ≤ 4095)
      → AreOffers so_far.0
      → AreOffers (add_peer ip decimal settings peer id so_far).0
  add_peer-AreOffers peer none so_far b k = k
  add_peer-AreOffers peer (some v) (vlans, rejected) b k =
      extend_found-AreOffers peer.name _ vlans
        (eligible_networks-IsOffer ip reads settings _ b (peer.ipv4 ++ peer.ipv6) rejected) k

  add_peers-AreOffers :
      (name : String) (peers : List Peer) (so_far : ByInterface × List RejectedCandidate)
      → AreOffers so_far.0
      → AreOffers (add_peers ip decimal settings name peers so_far).0
  unfolding add_peers
  add_peers-AreOffers name [] so_far k = k
  add_peers-AreOffers name (peer ∷ peers) so_far k =
      add_peers-AreOffers name peers
        (add_peer ip decimal settings peer (vlan_id_for ip decimal settings name peer.name) so_far)
        (add_peer-AreOffers peer _ so_far (vlan_id_for-bound name peer.name) k)

  add_destination-IsOffer :
      (name : String) (destination : Option String) (so_far : Found)
      → All (IsOffer ip settings) so_far.0
      → All (IsOffer ip settings) (add_destination ip decimal settings name destination so_far).0
  add_destination-IsOffer name none so_far h = h
  add_destination-IsOffer name (some d) (networks, rejected) h =
      All-append (IsOffer ip settings) networks _ h
        (eligible_networks-IsOffer ip reads settings _ (λ v e. cc) (d ∷ []) rejected)

  add_routes-IsOffer :
      (name : String) (routes : List Route) (so_far : Found)
      → All (IsOffer ip settings) so_far.0
      → All (IsOffer ip settings) (add_routes ip decimal settings name routes so_far).0
  unfolding add_routes
  add_routes-IsOffer name [] so_far h = h
  add_routes-IsOffer name (route ∷ routes) so_far h =
      add_routes-IsOffer name routes
        (if str_eq route.dev name && (if route.gateway then false else true)
          then add_destination ip decimal settings name (route_destination route) so_far
          else so_far)
        (if_both (λ (f : Found). All (IsOffer ip settings) f.0) _
          (add_destination-IsOffer name (route_destination route) so_far h) h)

  from_routes-IsProposal :
      (name : String) (found : Found)
      → All (IsOffer ip settings) found.0
      → IsProposal ip settings (from_routes ip decimal settings name found)
  from_routes-IsProposal name ([], rejected) h = proposal-IsProposal name no_source [] rejected tt
  from_routes-IsProposal name (n ∷ ns, rejected) h =
      proposal-IsProposal name route_hints (n ∷ ns) rejected h

  from_vlans-IsProposal :
      (name : String) (routes : List Route) (vlans : ByInterface × List RejectedCandidate)
      → AreOffers vlans.0
      → IsProposal ip settings (from_vlans ip decimal settings name routes vlans)
  from_vlans-IsProposal name routes ([], rejected) h =
      from_routes-IsProposal name _ (add_routes-IsOffer name routes ([], rejected) tt)
  from_vlans-IsProposal name routes ((chosen, networks) ∷ rest, rejected) h =
      proposal-IsProposal chosen vlan_hints networks rejected h.0

  from_assigned-IsProposal :
      (name : String) (peers : List Peer) (routes : List Route) (found : Found)
      → All (IsOffer ip settings) found.0
      → IsProposal ip settings (from_assigned ip decimal settings name peers routes found)
  from_assigned-IsProposal name peers routes ([], rejected) h =
      from_vlans-IsProposal name routes _ (add_peers-AreOffers name peers ([], rejected) tt)
  from_assigned-IsProposal name peers routes (n ∷ ns, rejected) h =
      proposal-IsProposal name interface_prefix (n ∷ ns) rejected h

  -- Where ipaddress reads networks and addresses only, all networks that propose offers are
  -- well-formed, not prohibited, not loopback or link-local, and, unless large scopes are allowed,
  -- within the proposal limit of their family; no two show the same text, the canonical targets are
  -- these texts, and all VLAN identifiers are at most 4095.
  pub propose-IsProposal :
      (name : String) (assigned : List String) (peers : List Peer) (routes : List Route)
      → IsProposal ip settings (propose ip decimal settings name assigned peers routes)
  unfolding propose
  propose-IsProposal name assigned peers routes =
      from_assigned-IsProposal name peers routes _
        (eligible_networks-IsOffer ip reads settings _ (λ v e. cc) assigned [])
