-- ===== src/Scope/Refusals.antt =====
-- Why ScopeValidator.validate refuses a scope (engine/scope.py): each code of ScopeValidationError, and
-- what it says about the targets.
use wirescope.Prelude.{
  conj_right, ◌≤◌, ◌<◌, ◌≡◌, refl, sym, ◌∙◌, ap, subst, ◌↔◌, ◌⊎◌, inl, inr, String, Bool, true,
  false, not, ◌&&◌, none, some, List, [], ◌∷◌, ◌++◌, length, ltb, if_then, if_else, if◌then◌else◌,
  Bool-cases, arith,
}
use wirescope.Scope.Networks.{Network, Ipaddress}
use wirescope.Scope.Validate.{
  ActiveProfile, ScopeValidationCode, Checked, accepted, refused, empty, invalid_target,
  prohibited_target, too_many_expressions, limit_exceeded, ◌>>=◌, >>=-eq-refused, ScopeSettings,
  ValidatedScope, exceeds, family_count, ipv6_limit, is_nil, limited, parse_targets, profile_limit,
  read_target, remove_duplicates_and_covered, validate,
}
use wirescope.Scope.Stops.{
  IsProhibited, Stop, Stopped, stopped_reading, stopped_prohibited, refused-injective,
  accepted_not_refused, parse_target-Stopped, Stopped-parse_target, parse_targets-Stopped,
  stop-refused,
}

pub data Refusal (ip : Ipaddress) (settings : ScopeSettings) (targets : List String)
    (profile : ActiveProfile) : ScopeValidationCode → Type 0 where
  no_target : targets ≡ [] → Refusal ip settings targets profile empty
  too_many : 256 < length targets → Refusal ip settings targets profile too_many_expressions
  unreadable :
      length targets ≤ 256
      → (s : Stop ip targets) → read_target ip (ip.strip s.raw) ≡ none
      → Refusal ip settings targets profile invalid_target
  not_allowed :
      length targets ≤ 256
      → (s : Stop ip targets) (n : Network) → read_target ip (ip.strip s.raw) ≡ some n
      → IsProhibited ip n
      → Refusal ip settings targets profile prohibited_target
  over_limit :
      0 < length targets
      → length targets ≤ 256
      → (asked : List Network) → parse_targets ip targets ≡ accepted asked
      → settings.active_allow_large_scopes ≡ false
      → (profile_limit settings profile < family_count 4 (remove_duplicates_and_covered asked))
        ⊎ (ipv6_limit settings profile < family_count 6 (remove_duplicates_and_covered asked))
      → Refusal ip settings targets profile limit_exceeded

large : (a b : Bool) → (not a && b) ≡ true → a ≡ false
large a b t = ground arith

over :
    (settings : ScopeSettings) (profile : ActiveProfile) (ns : List Network)
    → exceeds settings profile ns ≡ true
    → (profile_limit settings profile < family_count 4 ns)
      ⊎ (ipv6_limit settings profile < family_count 6 ns)
over settings profile ns t = ground arith

over_exceeds :
    (settings : ScopeSettings) (profile : ActiveProfile) (ns : List Network)
    → (profile_limit settings profile < family_count 4 ns)
      ⊎ (ipv6_limit settings profile < family_count 6 ns)
    → exceeds settings profile ns ≡ true
over_exceeds settings profile ns t = ground arith

-- The two tests in front of the loop.
abbrev pub gate {ℓ} : {X : Type ℓ} → List String → Checked X → Checked X
gate targets rest =
    if is_nil targets
    then refused empty
    else if ltb 256 (length targets)
    then refused too_many_expressions
    else rest

gate-empty {ℓ} :
    {X : Type ℓ} (targets : List String) (rest : Checked X)
    → targets ≡ []
    → gate targets rest ≡ refused empty
gate-empty [] rest e = refl
gate-empty (t ∷ ts) rest e = cc

gate_many {ℓ} :
    {X : Type ℓ} (targets : List String) (rest : Checked X)
    → 256 < length targets
    → gate targets rest ≡ refused too_many_expressions
gate_many [] rest h = absurd (omega arith)
gate_many (t ∷ ts) rest h = ground arith

pub gate_open {ℓ} :
    {X : Type ℓ} (targets : List String) (rest : Checked X)
    → 0 < length targets
    → length targets ≤ 256
    → gate targets rest ≡ rest
gate_open [] rest h k = absurd (omega arith)
gate_open (t ∷ ts) rest h k = ground arith

nonempty_at :
    (front back : List String) (raw : String) (targets : List String)
    → targets ≡ front ++ raw ∷ back
    → 0 < length targets
nonempty_at [] back raw targets e = rw e (omega arith)
nonempty_at (t ∷ front) back raw targets e = rw e (omega arith)

nil_cases : (targets : List String) → (targets ≡ []) ⊎ (0 < length targets)
nil_cases [] = inl refl
nil_cases (t ∷ ts) = inr (omega arith)

module _ (ip : Ipaddress) (settings : ScopeSettings) (targets : List String)
    (profile : ActiveProfile) where
  stopped-Refusal :
      (code : ScopeValidationCode) (s : Stop ip targets)
      → length targets ≤ 256
      → Stopped ip s.raw code
      → Refusal ip settings targets profile code
  stopped-Refusal _ s le (stopped_reading e) = unreadable le s e
  stopped-Refusal _ s le (stopped_prohibited n e h) = not_allowed le s n e h

  limited-refused :
      (asked : List Network) (code : ScopeValidationCode)
      → 0 < length targets
      → length targets ≤ 256
      → parse_targets ip targets ≡ accepted asked
      → limited ip settings profile (remove_duplicates_and_covered asked) ≡ refused code
      → Refusal ip settings targets profile code
  unfolding limited
  limited-refused asked code nonempty le got e =
      let networks = remove_duplicates_and_covered asked in
      let test = not settings.active_allow_large_scopes && exceeds settings profile networks in
      elim (Bool-cases test) [
        | inl t ↦
            subst (Refusal ip settings targets profile) (refused-injective (if_then test _ t e)) (
              over_limit nonempty le asked got (large settings.active_allow_large_scopes _ t)
                (over settings profile networks (conj_right _ _ t)))
        | inr t ↦ absurd (accepted_not_refused (if_else test _ t e))
      ]

  abbrev after : List Network → Checked ValidatedScope
  after asked = limited ip settings profile (remove_duplicates_and_covered asked)

  opened :
      (code : ScopeValidationCode)
      → 0 < length targets
      → length targets ≤ 256
      → (parse_targets ip targets >>= after) ≡ refused code
      → Refusal ip settings targets profile code
  opened code nonempty le e = elim (>>=-eq-refused (parse_targets ip targets) after e) [
    | inl r ↦
        let (s, p) = parse_targets-Stopped ip targets code r in
        stopped-Refusal code s le (parse_target-Stopped ip s.raw code p)
    | inr (asked, got, p) ↦ limited-refused asked code nonempty le got p
  ]

  validate-Refusal :
      (code : ScopeValidationCode)
      → validate ip settings targets profile ≡ refused code
      → Refusal ip settings targets profile code
  unfolding validate
  validate-Refusal code e = elim (nil_cases targets) [
    | inl n ↦
        subst (Refusal ip settings targets profile)
          (refused-injective (sym (gate-empty targets _ n) ∙ e)) (no_target n)
    | inr n ↦ elim (Bool-cases (ltb 256 (length targets))) [
      | inl m ↦
          let h : 256 < length targets = ground arith in
          subst (Refusal ip settings targets profile)
            (refused-injective (sym (gate_many targets _ h) ∙ e)) (too_many h)
      | inr m ↦ opened code n (ground arith) (sym (gate_open targets _ n (ground arith)) ∙ e)
    ]
  ]

  Refusal-parse_targets :
      (s : Stop ip targets) (code : ScopeValidationCode)
      → Stopped ip s.raw code
      → parse_targets ip targets ≡ refused code
  Refusal-parse_targets s code h =
      rw (s.split)
        (stop-refused ip s.front s.back s.raw code s.earlier (Stopped-parse_target ip s.raw code h))

  Stop-validate :
      (s : Stop ip targets) (code : ScopeValidationCode)
      → length targets ≤ 256
      → Stopped ip s.raw code
      → validate ip settings targets profile ≡ refused code
  unfolding validate
  Stop-validate s code le h =
      gate_open targets _ (nonempty_at s.front s.back s.raw targets s.split) le
      ∙ ap (λ c. c >>= after) (Refusal-parse_targets s code h)

  Refusal-validate :
      (code : ScopeValidationCode)
      → Refusal ip settings targets profile code
      → validate ip settings targets profile ≡ refused code
  unfolding validate limited
  Refusal-validate _ (no_target e) = gate-empty targets _ e
  Refusal-validate _ (too_many h) = gate_many targets _ h
  Refusal-validate _ (unreadable le s e) = Stop-validate s invalid_target le (stopped_reading e)
  Refusal-validate _ (not_allowed le s n e h) =
      Stop-validate s prohibited_target le (stopped_prohibited n e h)
  Refusal-validate _ (over_limit nonempty le asked got no_large h) =
      gate_open targets _ nonempty le
      ∙ ap (λ c. c >>= after) got
      ∙ rw (no_large, over_exceeds settings profile (remove_duplicates_and_covered asked) h) refl

  -- Validate refuses with a code exactly if what the code says holds: no target; more than 256
  -- targets; at most 256 targets, the first that is not accepted being unreadable; the same, that
  -- target being a network that is prohibited; all targets accepted, large scopes not allowed, and
  -- the addresses of a family above its limit.
  pub validate-refused_iff :
      (code : ScopeValidationCode)
      → (validate ip settings targets profile ≡ refused code)
        ↔ Refusal ip settings targets profile code
  validate-refused_iff code = (validate-Refusal code, Refusal-validate code)
