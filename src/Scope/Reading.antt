-- ===== src/Scope/Reading.antt =====
-- A validated scope is read back as it was printed (ScopeValidator, engine/scope.py): its targets pass
-- the validator again, with the same result.
use native.Mathlib.Nat.{one-le-pow}
use wirescope.Scope.Confirmed.{validate-inv, limited-scope_of, All-remove_duplicates_and_covered}
use wirescope.Scope.Covering.{remove_duplicates_and_covered-contains}
use wirescope.Scope.Refusals.{gate_open}
use wirescope.Prelude.{
  ℕ, suc, ◌-◌, ◌<◌, any, ◌≡◌, refl, sym, ap, ◌∙◌, inl, inr, String, Bool, true, false, some, List,
  [], ◌∷◌, map, All, length, ◌==◌, Bool-cases, arith,
}
use wirescope.Scope.Canonical.{
  remove_duplicates_and_covered_idem, length-remove_duplicates_and_covered,
}
use wirescope.Scope.Networks.{
  Address, IsAddress, IsNetwork, Network, Ipaddress, Reads, has_slash, host_network, max_prefixlen,
  contains, num_addresses,
}
use wirescope.Scope.Permitted.{IsPermitted, accepted-injective, parse_targets-IsPermitted}
use wirescope.Scope.Validate.{
  ActiveProfile, accepted, ScopeSettings, ValidatedScope, >>=-eq-accepted, limited, scope_of,
  scope_target, ◌>>=◌, display_value, host, or_invalid, parse_target, parse_targets, prohibit,
  read_target, remove_duplicates_and_covered, validate,
}

-- What `ipaddress` and `str.strip` do with what `str` prints.
pub record Prints (ip : Ipaddress) : Type 0 where
  pub network_slash : (n : Network) → IsNetwork n → has_slash (ip.show_network n) ≡ true
  pub network_strip : (n : Network) → IsNetwork n → ip.strip (ip.show_network n) ≡ ip.show_network n
  pub network_again : (n : Network) → IsNetwork n → ip.ip_network (ip.show_network n) ≡ some n
  pub address_slash : (a : Address) → IsAddress a → has_slash (ip.show_address a) ≡ false
  pub address_strip : (a : Address) → IsAddress a → ip.strip (ip.show_address a) ≡ ip.show_address a
  pub address_again : (a : Address) → IsAddress a → ip.ip_address (ip.show_address a) ≡ some a

abbrev first_address : Network → Address
first_address n = record { version = n.version; value = n.network_address }

module _ (ip : Ipaddress) (prints : Prints ip) where
  read_slash : (s : String) → has_slash s ≡ true → read_target ip s ≡ ip.ip_network s
  read_slash s h = rw h refl

  read_plain : (s : String) → has_slash s ≡ false → read_target ip s ≡ host (ip.ip_address s)
  read_plain s h = rw h refl

  pub read_network :
      (n : Network) → IsNetwork n → read_target ip (ip.strip (ip.show_network n)) ≡ some n
  read_network n h =
      ap (read_target ip) (prints.network_strip n h)
      ∙ read_slash (ip.show_network n) (prints.network_slash n h)
      ∙ prints.network_again n h

  read_address :
      (a : Address)
      → IsAddress a
      → read_target ip (ip.strip (ip.show_address a)) ≡ some (host_network a)
  read_address a h =
      ap (read_target ip) (prints.address_strip a h)
      ∙ read_plain (ip.show_address a) (prints.address_slash a h)
      ∙ ap host (prints.address_again a h)

  with_prefix :
      (n : Network) (p : ℕ)
      → p ≡ n.prefixlen
      → record { version = n.version; network_address = n.network_address; prefixlen = p } ≡ n
  with_prefix n p e =
      ap (λ q. record { version = n.version; network_address = n.network_address; prefixlen = q }) e

  read_shown : (n : Network) → IsNetwork n → read_target ip (ip.strip (display_value ip n)) ≡ some n
  unfolding display_value
  read_shown n h = elim (Bool-cases (n.prefixlen == max_prefixlen n.version)) [
    | inl t ↦ rw t (
        read_address (first_address n) (record { version = h.version; bounded = h.bounded })
        ∙ ap some (with_prefix n (max_prefixlen n.version) (ground arith)))
    | inr t ↦ rw t (read_network n h)
  ]

  permitted-prohibit : (n : Network) → IsPermitted ip n → prohibit ip n ≡ accepted n
  unfolding prohibit
  permitted-prohibit n h = ground (arith, h.proper, h.specified, h.unicast)

  parse_target-display_value :
      (n : Network) → IsPermitted ip n → parse_target ip (display_value ip n) ≡ accepted n
  unfolding parse_target
  parse_target-display_value n h =
      ap (λ o. or_invalid o >>= prohibit ip) (read_shown n h.network) ∙ permitted-prohibit n h

  -- Printed networks are read back as they were.
  pub parse_targets-map-display_value :
      (ns : List Network)
      → All (IsPermitted ip) ns
      → parse_targets ip (map (display_value ip) ns) ≡ accepted ns
  unfolding parse_targets
  parse_targets-map-display_value [] h = refl
  parse_targets-map-display_value (n ∷ ns) h =
      rw (parse_target-display_value n h.0, parse_targets-map-display_value ns h.1) refl

  -- As many networks as targets.
  length-parse_targets :
      (targets : List String) (ns : List Network)
      → parse_targets ip targets ≡ accepted ns
      → length ns ≡ length targets
  unfolding parse_targets
  length-parse_targets [] ns e = sym (ap length (accepted-injective e))
  length-parse_targets (raw ∷ targets) ns e =
      let (n, got, left) = >>=-eq-accepted (parse_target ip raw) _ e in
      let (rest, got', left') =
        >>=-eq-accepted (parse_targets ip targets) (λ networks. accepted (n ∷ networks)) left in
      sym (ap length (accepted-injective left')) ∙ ap suc (length-parse_targets targets rest got')

own_address : (n : Network) → contains n.version n.network_address n ≡ true
unfolding num_addresses
own_address n = ground (arith, one-le-pow (max_prefixlen n.version - n.prefixlen) 2 (omega arith))

nonempty_any : (p : Network → Bool) (ns : List Network) → any p ns ≡ true → 0 < length ns
nonempty_any p [] h = ground arith
nonempty_any p (n ∷ ns) h = omega arith

nonempty-remove :
    (ns : List Network) → 0 < length ns → 0 < length (remove_duplicates_and_covered ns)
nonempty-remove [] h = absurd (omega arith)
nonempty-remove (n ∷ ns) h = nonempty_any (contains n.version n.network_address) _ (
    remove_duplicates_and_covered-contains n.version n.network_address (n ∷ ns)
    ∙ rw (own_address n) refl)

map-map :
    (ip : Ipaddress) (ns : List Network)
    → map (λ t. t.value) (map (scope_target ip) ns) ≡ map (display_value ip) ns
unfolding scope_target
map-map ip [] = refl
map-map ip (n ∷ ns) = ap (λ l. display_value ip n ∷ l) (map-map ip ns)

length-map : (f : Network → String) (ns : List Network) → length (map f ns) ≡ length ns
length-map f [] = refl
length-map f (n ∷ ns) = ap suc (length-map f ns)

module _ (ip : Ipaddress) (reads : Reads ip) (prints : Prints ip) (settings : ScopeSettings)
    (targets : List String) (profile : ActiveProfile) (scope : ValidatedScope) where
  canonical :
      (networks : List Network)
      → scope ≡ scope_of ip settings profile networks
      → scope.canonical_targets ≡ map (display_value ip) networks
  unfolding scope_of
  canonical networks e = ap (λ s. s.canonical_targets) e ∙ map-map ip networks

  -- Where ipaddress reads networks and addresses only, and reads back what it prints, the canonical
  -- targets of a scope that validate accepted are accepted again with the same profile, and give the
  -- same scope.
  pub validate_again :
      validate ip settings targets profile ≡ accepted scope
      → validate ip settings scope.canonical_targets profile ≡ accepted scope
  unfolding validate
  validate_again e =
      let (asked, got, left, some_target, few) = validate-inv ip settings targets profile scope e in
      let networks = remove_duplicates_and_covered asked in
      let printed = map (display_value ip) networks in
      let same = length-parse_targets ip prints targets asked got in
      let permitted =
        All-remove_duplicates_and_covered (IsPermitted ip) asked
          (parse_targets-IsPermitted ip reads targets asked got) in
      ap (λ ts. validate ip settings ts profile)
        (canonical networks (limited-scope_of ip settings profile networks scope left))
      ∙ (gate_open printed _
            (omega
              (arith, length-map (display_value ip) networks, nonempty-remove asked (omega arith)))
            (omega (
              arith,
              length-map (display_value ip) networks,
              length-remove_duplicates_and_covered asked,
            ))
          ∙ ap
              (λ c.
                c >>= λ parsed. limited ip settings profile (remove_duplicates_and_covered parsed))
              (parse_targets-map-display_value ip prints networks permitted)
          ∙ ap (limited ip settings profile) (remove_duplicates_and_covered_idem asked)
          ∙ left)
