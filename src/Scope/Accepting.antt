-- ===== src/Scope/Accepting.antt =====
-- What is offered to an operator is accepted from one (engine/scope.py): proposed networks are read as
-- targets.
use wirescope.Prelude.{ℕ, ◌≡◌, refl, ap, ◌∙◌, String, Option, List, [], ◌∷◌, map, All}
use wirescope.Scope.Hints.{propose}
use wirescope.Scope.Networks.{Network, Ipaddress, Reads}
use wirescope.Scope.Offers.{IsOffer}
use wirescope.Scope.Proposing.{cidr_key, propose-IsProposal}
use wirescope.Scope.Permitted.{IsPermitted}
use wirescope.Scope.Proposal.{Peer, ProposedNetwork, Route}
use wirescope.Scope.Reading.{Prints, parse_targets-map-display_value}
use wirescope.Scope.Validate.{accepted, ScopeSettings, display_value, parse_targets}

module _ (ip : Ipaddress) (settings : ScopeSettings) where
  shown :
      (ps : List ProposedNetwork)
      → All (IsOffer ip settings) ps
      → (ns : List Network) × (map cidr_key ps ≡ map (display_value ip) ns)
        × All (IsPermitted ip) ns
  shown [] h = ([], refl, tt)
  shown (p ∷ ps) h =
      let (ns, same, permitted) = shown ps h.1 in
      (h.0.network ∷ ns, rw (h.0.shown, same) refl, (h.0.permitted, permitted))

-- Where ipaddress reads networks and addresses only, and reads back what it prints, the validator
-- reads the canonical targets of a proposal without an error, as networks that are not prohibited.
pub propose-parse_targets :
    (ip : Ipaddress) (reads : Reads ip) (prints : Prints ip) (decimal : String → Option ℕ)
    (settings : ScopeSettings) (name : String) (assigned : List String) (peers : List Peer)
    (routes : List Route)
    → (ns : List Network) × (parse_targets ip
          (propose ip decimal settings name assigned peers routes).canonical_targets
        ≡ accepted ns)
      × All (IsPermitted ip) ns
propose-parse_targets ip reads prints decimal settings name assigned peers routes =
    let p = propose-IsProposal ip reads decimal settings name assigned peers routes in
    let (ns, same, permitted) =
      shown ip settings (propose ip decimal settings name assigned peers routes).networks
        p.offers in
    (
      ns,
      ap (parse_targets ip) (p.targets ∙ same)
          ∙ parse_targets-map-display_value ip prints ns permitted,
      permitted,
    )
