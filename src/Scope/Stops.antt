-- ===== src/Scope/Stops.antt =====
-- Where ScopeValidator.validate stops reading targets (engine/scope.py).
use wirescope.Prelude.{
  ◌≡◌, refl, ◌∙◌, ap, subst, ◌⊎◌, inl, inr, String, true, ◌||◌, Option, none, some, List, [], ◌∷◌,
  ◌++◌, All, ◌==◌, if_then, if_else, Bool-cases, arith,
}
use wirescope.Scope.Networks.{Network, Ipaddress}
use wirescope.Scope.Validate.{
  ScopeValidationCode, Checked, accepted, refused, invalid_target, prohibited_target, ◌>>=◌,
  >>=-eq-refused, or_invalid, parse_target, parse_targets, prohibit, read_target,
}

-- What no network may be that is scanned.
abbrev pub IsProhibited : Ipaddress → Network → Type 0
IsProhibited ip n = (n.prefixlen ≡ 0) ⊎ ((ip.is_unspecified n ≡ true) ⊎ (ip.is_multicast n ≡ true))

-- The target at which the loop stops: those in front of it are accepted.
pub record Stop (ip : Ipaddress) (targets : List String) : Type 0 where
  pub front : List String
  pub raw : String
  pub back : List String
  pub split : targets ≡ front ++ raw ∷ back
  pub earlier : All (λ s. (n : Network) × (parse_target ip s ≡ accepted n)) front

pub refused-injective {ℓ} :
    {A : Type ℓ} {a b : ScopeValidationCode} → ◌≡◌ {A = Checked A} (refused a) (refused b) → a ≡ b
refused-injective {a} {b} h = cc

pub accepted_not_refused {ℓ} :
    {A : Type ℓ} {a : A} {code : ScopeValidationCode} → ¬ (accepted a ≡ refused code)
accepted_not_refused h = cc

module _ (ip : Ipaddress) where
  -- Where one target is refused.
  pub data Stopped (raw : String) : ScopeValidationCode → Type 0 where
    stopped_reading : read_target ip (ip.strip raw) ≡ none → Stopped raw invalid_target
    stopped_prohibited :
        (n : Network)
        → read_target ip (ip.strip raw) ≡ some n
        → IsProhibited ip n
        → Stopped raw prohibited_target

  IsProhibited-prohibit :
      (n : Network) → IsProhibited ip n → prohibit ip n ≡ refused prohibited_target
  unfolding prohibit
  IsProhibited-prohibit n h = ground arith

  prohibit-IsProhibited :
      (n : Network) (code : ScopeValidationCode)
      → prohibit ip n ≡ refused code
      → IsProhibited ip n × (prohibited_target ≡ code)
  unfolding prohibit
  prohibit-IsProhibited n code e =
      elim (Bool-cases ((n.prefixlen == 0) || (ip.is_unspecified n || ip.is_multicast n))) [
        | inl t ↦ (
          ground arith,
          refused-injective
              (if_then ((n.prefixlen == 0) || (ip.is_unspecified n || ip.is_multicast n)) _ t e),
        )
        | inr t ↦ absurd (
            accepted_not_refused
              (if_else ((n.prefixlen == 0) || (ip.is_unspecified n || ip.is_multicast n)) _ t e))
      ]

  or_invalid-refused :
      (o : Option Network) (code : ScopeValidationCode)
      → or_invalid o ≡ refused code
      → (o ≡ none) × (invalid_target ≡ code)
  or_invalid-refused none code e = (refl, refused-injective e)
  or_invalid-refused (some n) code e = absurd (accepted_not_refused e)

  or_invalid-accepted : (o : Option Network) (n : Network) → or_invalid o ≡ accepted n → o ≡ some n
  or_invalid-accepted none n e = cc
  or_invalid-accepted (some m) n e = cc

  pub parse_target-Stopped :
      (raw : String) (code : ScopeValidationCode)
      → parse_target ip raw ≡ refused code
      → Stopped raw code
  unfolding parse_target
  parse_target-Stopped raw code e =
      elim (>>=-eq-refused (or_invalid (read_target ip (ip.strip raw))) (prohibit ip) e) [
        | inl r ↦
            let (unread, same) = or_invalid-refused (read_target ip (ip.strip raw)) code r in
            subst (Stopped raw) same (stopped_reading unread)
        | inr (n, got, p) ↦
            let (h, same) = prohibit-IsProhibited n code p in
            subst (Stopped raw) same
              (stopped_prohibited n (or_invalid-accepted (read_target ip (ip.strip raw)) n got) h)
      ]

  pub Stopped-parse_target :
      (raw : String) (code : ScopeValidationCode)
      → Stopped raw code
      → parse_target ip raw ≡ refused code
  unfolding parse_target
  Stopped-parse_target raw _ (stopped_reading e) = ap (λ o. or_invalid o >>= prohibit ip) e
  Stopped-parse_target raw _ (stopped_prohibited n e h) =
      ap (λ o. or_invalid o >>= prohibit ip) e ∙ IsProhibited-prohibit n h

  Stop-cons :
      {code : ScopeValidationCode} (raw : String) (rest : List String) (n : Network)
      → parse_target ip raw ≡ accepted n
      → (s : Stop ip rest) × (parse_target ip s.raw ≡ refused code)
      → (s : Stop ip (raw ∷ rest)) × (parse_target ip s.raw ≡ refused code)
  Stop-cons raw rest n got (s, r) = (
    record {
      front = raw ∷ s.front;
      raw = s.raw;
      back = s.back;
      split = ap (λ ts. raw ∷ ts) s.split;
      earlier = ((n, got), s.earlier);
    },
    r,
  )

  pub parse_targets-Stopped :
      (targets : List String) (code : ScopeValidationCode)
      → parse_targets ip targets ≡ refused code
      → (s : Stop ip targets) × (parse_target ip s.raw ≡ refused code)
  unfolding parse_targets
  parse_targets-Stopped [] code e = absurd (accepted_not_refused e)
  parse_targets-Stopped (raw ∷ rest) code e = elim (>>=-eq-refused (parse_target ip raw) _ e) [
    | inl r ↦ (record { front = []; raw = raw; back = rest; split = refl; earlier = tt }, r)
    | inr (n, got, p) ↦
        elim (>>=-eq-refused (parse_targets ip rest) (λ networks. accepted (n ∷ networks)) p) [
          | inl r ↦ Stop-cons raw rest n got (parse_targets-Stopped rest code r)
          | inr (ns, got', p') ↦ absurd (accepted_not_refused p')
        ]
  ]

  pub stop-refused :
      (front back : List String) (raw : String) (code : ScopeValidationCode)
      → All (λ s. (n : Network) × (parse_target ip s ≡ accepted n)) front
      → parse_target ip raw ≡ refused code
      → parse_targets ip (front ++ raw ∷ back) ≡ refused code
  unfolding parse_targets
  stop-refused [] back raw code h e = rw e refl
  stop-refused (t ∷ front) back raw code h e =
      rw (h.0.1, stop-refused front back raw code h.1 e) refl
