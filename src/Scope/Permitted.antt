-- ===== src/Scope/Permitted.antt =====
-- The networks that ScopeValidator accepts as targets (engine/scope.py): read by `ipaddress`, and not prohibited.
use wirescope.Prelude.{
  ◌≡◌, refl, if_then, if_else, ◌≢◌, subst, inl, inr, String, false, ◌||◌, Option, none, some, List,
  [], ◌∷◌, All, ◌==◌, Bool-cases, arith,
}
use wirescope.Scope.Networks.{
  Network, Address, Ipaddress, IsNetwork, IsAddress, Reads, has_slash, host_network, num_addresses,
}
use wirescope.Scope.Validate.{
  ScopeValidationCode, refused, accepted, host, read_target, >>=-eq-accepted, parse_target,
  parse_targets, prohibit, or_invalid,
}

pub accepted-injective {ℓ} : {A : Type ℓ} {a b : A} → accepted a ≡ accepted b → a ≡ b
accepted-injective {a} {b} h = cc

pub refused_not_accepted {ℓ} :
    {A : Type ℓ} {a : A} {code : ScopeValidationCode} → ¬ (refused code ≡ accepted a)
refused_not_accepted h = cc

pub or_invalid-accepted :
    (o : Option Network) (n : Network) → or_invalid o ≡ accepted n → o ≡ some n
or_invalid-accepted none n e = cc
or_invalid-accepted (some m) n e = cc

host_network-IsNetwork : (a : Address) → IsAddress a → IsNetwork (host_network a)
unfolding num_addresses
host_network-IsNetwork a h = record {
  version = h.version;
  prefix = omega arith;
  block = a.value;
  aligned = grind arith;
  bounded = h.bounded;
}

-- A network that no rule prohibits.
pub record IsPermitted (ip : Ipaddress) (n : Network) : Type 0 where
  pub network : IsNetwork n
  pub proper : n.prefixlen ≢ 0
  pub specified : ip.is_unspecified n ≡ false
  pub unicast : ip.is_multicast n ≡ false

module _ (ip : Ipaddress) (reads : Reads ip) where
  pub prohibit-IsPermitted :
      (n m : Network) → IsNetwork n → prohibit ip n ≡ accepted m → IsPermitted ip m
  unfolding prohibit
  prohibit-IsPermitted n m h e =
      elim (Bool-cases ((n.prefixlen == 0) || (ip.is_unspecified n || ip.is_multicast n))) [
        | inl t ↦ absurd (
            refused_not_accepted
              (if_then ((n.prefixlen == 0) || (ip.is_unspecified n || ip.is_multicast n)) _ t e))
        | inr t ↦
            subst (IsPermitted ip)
              (accepted-injective
                (if_else ((n.prefixlen == 0) || (ip.is_unspecified n || ip.is_multicast n)) _ t e))
              (record {
                network = h;
                proper = ground arith;
                specified = ground arith;
                unicast = ground arith;
              })
      ]

  host-some :
      (o : Option Address) (n : Network)
      → host o ≡ some n
      → (a : Address) × (o ≡ some a) × (host_network a ≡ n)
  host-some none n e = cc
  host-some (some a) n e = (a, refl, cc)

  pub host-IsNetwork :
      (value : String) (n : Network) → host (ip.ip_address value) ≡ some n → IsNetwork n
  host-IsNetwork value n e =
      let (a, got, same) = host-some (ip.ip_address value) n e in
      subst IsNetwork same (host_network-IsNetwork a (reads.addresses value a got))

  read_target-IsNetwork :
      (value : String) (n : Network) → read_target ip value ≡ some n → IsNetwork n
  read_target-IsNetwork value n e = elim (Bool-cases (has_slash value)) [
    | inl t ↦ reads.networks value n (if_then (has_slash value) _ t e)
    | inr t ↦ host-IsNetwork value n (if_else (has_slash value) _ t e)
  ]

  pub parse_target-IsPermitted :
      (raw : String) (n : Network) → parse_target ip raw ≡ accepted n → IsPermitted ip n
  unfolding parse_target
  parse_target-IsPermitted raw n e =
      let (m, got, left) =
        >>=-eq-accepted (or_invalid (read_target ip (ip.strip raw))) (prohibit ip) e in
      prohibit-IsPermitted m n
        (read_target-IsNetwork (ip.strip raw) m
          (or_invalid-accepted (read_target ip (ip.strip raw)) m got))
        left

  pub parse_targets-IsPermitted :
      (raws : List String) (ns : List Network)
      → parse_targets ip raws ≡ accepted ns
      → All (IsPermitted ip) ns
  unfolding parse_targets
  parse_targets-IsPermitted [] ns e = subst (All (IsPermitted ip)) (accepted-injective e) tt
  parse_targets-IsPermitted (raw ∷ raws) ns e =
      let (n, got, left) = >>=-eq-accepted (parse_target ip raw) _ e in
      let (rest, got', left') =
        >>=-eq-accepted (parse_targets ip raws) (λ networks. accepted (n ∷ networks)) left in
      subst (All (IsPermitted ip)) (accepted-injective left')
        (parse_target-IsPermitted raw n got, parse_targets-IsPermitted raws rest got')
