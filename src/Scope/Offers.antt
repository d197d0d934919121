-- ===== src/Scope/Offers.antt =====
-- What ScopeValidator.propose offers (engine/scope.py).
use wirescope.Prelude.{
  ℕ, ◌≤◌, ◌≡◌, refl, subst, ◌⊎◌, inl, inr, String, Bool, true, false, ◌||◌, some, List, [], ◌∷◌,
  All, All-append, str_eq, if_then, if_else, if_both, if◌then◌else◌, Bool-cases, arith,
}
use wirescope.Scope.Permitted.{
  IsPermitted, host-IsNetwork, or_invalid-accepted, prohibit-IsPermitted,
}
use wirescope.Scope.Networks.{IsNetwork, Network, Ipaddress, Reads, has_slash, num_addresses}
use wirescope.Scope.Proposal.{
  Found, Judged, eligible, not_eligible, Origin, ProposedNetwork, RejectedCandidate, add_judged,
  assigned_network, eligible_from, eligible_networks, judge, judge_network, proposal_limit,
  proposed, read_assigned, too_large,
}
use wirescope.Scope.Validate.{
  Checked, accepted, refused, ScopeSettings, display_value, or_invalid, >>=-eq-accepted,
}

-- A network that may be offered.
pub record IsOffer (ip : Ipaddress) (settings : ScopeSettings) (p : ProposedNetwork) : Type 0 where
  pub network : Network
  pub shown : p.cidr ≡ display_value ip network
  pub permitted : IsPermitted ip network
  pub routed : ip.is_loopback network ≡ false
  pub global : ip.is_link_local network ≡ false
  pub bounded :
      (settings.active_allow_large_scopes ≡ true)
      ⊎ (num_addresses network ≤ proposal_limit settings network.version)
  pub vlan : (v : ℕ) → p.vlan_id ≡ some v → v ≤ 4095

small :
    (settings : ScopeSettings) (n : Network)
    → too_large settings n ≡ false
    → (settings.active_allow_large_scopes ≡ true)
      ⊎ (num_addresses n ≤ proposal_limit settings n.version)
small settings n t = elim (Bool-cases settings.active_allow_large_scopes) [
  | inl e ↦ inl e
  | inr e ↦ inr ground arith
]

-- A network is eligible if both tests fail.
eligible_tests :
    (a b : Bool) (m n : Network) (c d : String)
    → (if a then not_eligible c else if b then not_eligible d else eligible m) ≡ eligible n
    → (a ≡ false) × (b ≡ false) × (m ≡ n)
eligible_tests true b m n c d e = cc
eligible_tests false true m n c d e = cc
eligible_tests false false m n c d e = (refl, refl, cc)

module _ (ip : Ipaddress) (reads : Reads ip) (settings : ScopeSettings) where
  read_assigned-IsNetwork :
      (value : String) (n : Network) → read_assigned ip value ≡ some n → IsNetwork n
  read_assigned-IsNetwork value n e = elim (Bool-cases (has_slash value)) [
    | inl t ↦ reads.interfaces value n (if_then (has_slash value) _ t e)
    | inr t ↦ host-IsNetwork ip reads value n (if_else (has_slash value) _ t e)
  ]

  assigned_network-IsPermitted :
      (raw : String) (n : Network) → assigned_network ip raw ≡ accepted n → IsPermitted ip n
  unfolding assigned_network
  assigned_network-IsPermitted raw n e =
      let (m, got, left) = >>=-eq-accepted (or_invalid (read_assigned ip (ip.strip raw))) _ e in
      prohibit-IsPermitted ip reads m n
        (read_assigned-IsNetwork (ip.strip raw) m
          (or_invalid-accepted (read_assigned ip (ip.strip raw)) m got))
        left

  -- The tests of a network, one for each field.
  judge_network-bounds :
      (c : Checked Network) (n : Network)
      → judge_network ip settings c ≡ eligible n
      → (c ≡ accepted n)
        × (ip.is_loopback n ≡ false)
        × (ip.is_link_local n ≡ false)
        × ((settings.active_allow_large_scopes ≡ true)
            ⊎ (num_addresses n ≤ proposal_limit settings n.version))
  unfolding judge_network
  judge_network-bounds (refused code) n e = cc
  judge_network-bounds (accepted m) n e =
      let (t, u, same) =
        eligible_tests (ip.is_loopback m || ip.is_link_local m) (too_large settings m) m n
          "not_global_unicast" "scope_limit_exceeded" e in
      subst
        (λ z.
          (accepted m ≡ accepted z)
          × (ip.is_loopback z ≡ false)
          × (ip.is_link_local z ≡ false)
          × ((settings.active_allow_large_scopes ≡ true)
              ⊎ (num_addresses z ≤ proposal_limit settings z.version)))
        same (refl, ground arith, ground arith, small settings m u)

  -- What the loop finds may be offered, where what was found before may.
  module _ (o : Origin) (tag : (v : ℕ) → o.vlan_id ≡ some v → v ≤ 4095) where
    added :
        (value : String) (c : Checked Network) (so_far : Found)
        → ((n : Network) → c ≡ accepted n → IsPermitted ip n)
        → All (IsOffer ip settings) so_far.0
        → All (IsOffer ip settings) (add_judged ip o value (judge_network ip settings c) so_far).0
    added value c so_far permitted h = judged (judge_network ip settings c) (judge_network-bounds c)
      where
        judged :
            (j : Judged)
            → ((n : Network)
                → j ≡ eligible n
                → (c ≡ accepted n)
                  × (ip.is_loopback n ≡ false)
                  × (ip.is_link_local n ≡ false)
                  × ((settings.active_allow_large_scopes ≡ true)
                      ⊎ (num_addresses n ≤ proposal_limit settings n.version)))
            → All (IsOffer ip settings) (add_judged ip o value j so_far).0
        judged (eligible n) b =
            let (got, routed, global, bounded) = b n refl in
            All-append (IsOffer ip settings) so_far.0 (proposed ip o value n ∷ []) h (
              record {
                network = n;
                shown = refl;
                permitted = permitted n got;
                routed = routed;
                global = global;
                bounded = bounded;
                vlan = tag;
              },
              tt,
            )
        judged (not_eligible x) b = h

    eligible_from-IsOffer :
        (values : List String) (so_far : Found)
        → All (IsOffer ip settings) so_far.0
        → All (IsOffer ip settings) (eligible_from ip settings o values so_far).0
    unfolding eligible_from judge
    eligible_from-IsOffer [] so_far h = h
    eligible_from-IsOffer (raw ∷ values) so_far h =
        let value = ip.strip raw in
        eligible_from-IsOffer values _ (
          if_both (λ (f : Found). All (IsOffer ip settings) f.0) (str_eq value "") h
            (added value (assigned_network ip value) so_far (assigned_network-IsPermitted value) h))

    pub eligible_networks-IsOffer :
        (values : List String) (rejected : List RejectedCandidate)
        → All (IsOffer ip settings) (eligible_networks ip settings o values rejected).0
    unfolding eligible_networks
    eligible_networks-IsOffer values rejected = eligible_from-IsOffer values ([], rejected) tt
