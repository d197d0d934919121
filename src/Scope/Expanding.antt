-- ===== src/Scope/Expanding.antt =====
-- What the targets of a scope become when those typed as the address of a connected network are expanded.
use wirescope.Prelude.{
  none, ◌≢◌, some-injective, ◌⊎◌, ◌≡◌, refl, sym, ap, ◌∙◌, subst, inl, inr, String, false, some,
  List, [], ◌∷◌, str_eq, eq_iff, Bool-cases, Option-cases, arith,
}
use wirescope.Scope.Hints.{
  connected, expand_connected_network_targets, expand_targets, expand_value, starting_at,
}
use wirescope.Scope.Networks.{Address, IsNetwork, Network, Ipaddress, Reads, has_slash}
use wirescope.Scope.Reading.{Prints, read_network}
use wirescope.Scope.Validate.{read_target}
use wirescope.Prelude.In.{In}

-- A network that one of the assigned addresses lies in.
abbrev pub Connected : Ipaddress → List String → Network → Type 0
Connected ip [] n = ⊥
Connected ip (raw ∷ assigned) n = (ip.ip_interface raw ≡ some n) ⊎ Connected ip assigned n

abbrev pub StartsAt : Address → Network → Type 0
StartsAt a n = (n.version ≡ a.version) × (n.network_address ≡ a.value)

-- Without a slash it is the address at which a network starts.
abbrev pub Names : Ipaddress → String → Network → Type 0
Names ip value n =
    (has_slash value ≡ false) × ((a : Address) × (ip.ip_address value ≡ some a) × StartsAt a n)

-- A value stays where it names no connected network, else it becomes the text of one it names.
abbrev pub Expands : Ipaddress → List String → String → String → Type 0
Expands ip assigned value out =
    ((out ≡ value) × ((n : Network) → Connected ip assigned n → ¬ (Names ip value n)))
    ⊎ ((n : Network) × Connected ip assigned n
        × Names ip value n
        × (read_target ip (ip.strip out) ≡ some n))

-- Blank targets are dropped, the others expanded in place.
abbrev pub Expanded : Ipaddress → List String → List String → List String → Type 0
Expanded ip assigned [] outs = outs ≡ []
Expanded ip assigned (raw ∷ targets) outs =
    ((ip.strip raw ≡ "") × Expanded ip assigned targets outs)
    ⊎ ((ip.strip raw ≢ "")
        × ((out : String) × (rest : List String) × (outs ≡ out ∷ rest)
            × Expands ip assigned (ip.strip raw) out
            × Expanded ip assigned targets rest))

starting_at-some :
    (a : Address) (ns : List Network) (n : Network)
    → starting_at a ns ≡ some n
    → In n ns × StartsAt a n
unfolding starting_at
starting_at-some a [] n e = cc
starting_at-some a (m ∷ ns) n e = ground (arith, starting_at-some a ns n)

starting_at-none :
    (a : Address) (ns : List Network) (n : Network)
    → starting_at a ns ≡ none
    → In n ns
    → ¬ (StartsAt a n)
unfolding starting_at
starting_at-none a [] n e i s = absurd i
starting_at-none a (m ∷ ns) n e (inl p) s = ground arith
starting_at-none a (m ∷ ns) n e (inr i) s = ground (arith, starting_at-none a ns n)

module _ (ip : Ipaddress) where
  connected-Connected :
      (assigned : List String) (n : Network)
      → In n (connected ip assigned)
      → Connected ip assigned n
  unfolding connected
  connected-Connected [] n i = i
  connected-Connected (raw ∷ assigned) n i = elim (Option-cases (ip.ip_interface raw)) [
    | inl e ↦ inr (connected-Connected assigned n (rw e at i))
    | inr (m, e) ↦ elim (rw e at i) [
      | inl p ↦ inl (e ∙ ap some p)
      | inr j ↦ inr (connected-Connected assigned n j)
    ]
  ]

  Connected-connected :
      (assigned : List String) (n : Network)
      → Connected ip assigned n
      → In n (connected ip assigned)
  unfolding connected
  Connected-connected [] n c = c
  Connected-connected (raw ∷ assigned) n (inl e) = rw e (inl refl)
  Connected-connected (raw ∷ assigned) n (inr c) = elim (Option-cases (ip.ip_interface raw)) [
    | inl e ↦ rw e (Connected-connected assigned n c)
    | inr (m, e) ↦ rw e (inr (Connected-connected assigned n c))
  ]

  module _ (reads : Reads ip) (prints : Prints ip) (assigned : List String) where
    Connected-IsNetwork : (raws : List String) (n : Network) → Connected ip raws n → IsNetwork n
    Connected-IsNetwork [] n c = absurd c
    Connected-IsNetwork (raw ∷ raws) n (inl e) = reads.interfaces raw n e
    Connected-IsNetwork (raw ∷ raws) n (inr c) = Connected-IsNetwork raws n c

    expand_value-Expands :
        (v : String) → Expands ip assigned v (expand_value ip (connected ip assigned) v)
    expand_value-Expands v = elim (Bool-cases (has_slash v)) [
      | inl t ↦ inl (rw t refl, λ n c (plain, x). ground arith)
      | inr t ↦ elim (Option-cases (ip.ip_address v)) [
        | inl e ↦ inl (rw (t, e) refl, λ n c (plain, (a, f, s)). ground arith)
        | inr (a, e) ↦ elim (Option-cases (starting_at a (connected ip assigned))) [
          | inl f ↦ inl (
            rw (t, e, f) refl,
            λ n c (plain, (b, g, s)).
                let same : a ≡ b = some-injective (sym e ∙ g) in
                starting_at-none a (connected ip assigned) n f (Connected-connected assigned n c)
                  (subst (λ d. StartsAt d n) (sym same) s),
          )
          | inr (n, f) ↦
              let (i, s) = starting_at-some a (connected ip assigned) n f in
              let c = connected-Connected assigned n i in
              inr (
                n,
                c,
                (t, (a, e, s)),
                rw (t, e, f) (read_network ip prints n (Connected-IsNetwork assigned n c)),
              )
        ]
      ]
    ]

    -- Where ipaddress reads networks and addresses only, and reads back what it prints,
    -- expand_connected_network_targets drops the targets that are blank when stripped and keeps the
    -- order of the others. A stripped target without a slash that is an address at which the network
    -- of an assigned address starts becomes a text that the validator reads as such a network; any
    -- other stripped target stays.
    pub expand_connected_network_targets-Expanded :
        (targets : List String)
        → Expanded ip assigned targets (expand_connected_network_targets ip targets assigned)
    unfolding expand_connected_network_targets expand_targets
    expand_connected_network_targets-Expanded [] = refl
    expand_connected_network_targets-Expanded (raw ∷ targets) =
        elim (Bool-cases (str_eq (ip.strip raw) "")) [
          | inl t ↦ inl (
            (eq_iff (ip.strip raw) "").0 t,
            rw t (expand_connected_network_targets-Expanded targets),
          )
          | inr t ↦ inr (
            λ p. ground (arith, eq_iff (ip.strip raw) ""),
            (
              expand_value ip (connected ip assigned) (ip.strip raw),
              expand_connected_network_targets ip targets assigned,
              rw t refl,
              expand_value-Expands (ip.strip raw),
              expand_connected_network_targets-Expanded targets,
            ),
          )
        ]
