-- ===== src/Auth/Throttle.antt =====
-- AttemptThrottle (auth/service.py): failures per key in a sliding window. Clock readings are natural
-- numbers of ticks; `now - stamp < window` is written `now < stamp + window`, which is the same where
-- the clock has not gone back.
use wirescope.Prelude.{
  ℕ, ◌+◌, String, Bool, List, [], ◌∷◌, ◌++◌, str_eq, ltb, leb, keep, length, if◌then◌else◌,
}

-- `_failures`, a dictionary in insertion order.
abbrev pub Failures : Type 0
Failures = List (String × List ℕ)

-- `self._failures.get(key, [])`
unfoldable pub stamps_of : String → Failures → List ℕ
stamps_of key [] = []
stamps_of key ((k, stamps) ∷ rest) = if str_eq k key then stamps else stamps_of key rest

-- `self._failures[key] = stamps`
unfoldable pub set_stamps : String → List ℕ → Failures → Failures
set_stamps key stamps [] = (key, stamps) ∷ []
set_stamps key stamps ((k, old) ∷ rest) =
    if str_eq k key then (k, stamps) ∷ rest else (k, old) ∷ set_stamps key stamps rest

-- `self._failures.pop(key, None)`
unfoldable pub pop : String → Failures → Failures
pop key [] = []
pop key ((k, old) ∷ rest) =
    let popped = pop key rest in if str_eq k key then popped else (k, old) ∷ popped

module _ (window_seconds : ℕ) where
  abbrev pub in_window : ℕ → ℕ → Bool
  in_window now stamp = ltb now (stamp + window_seconds)

  abbrev pub store : String → List ℕ → Failures → Failures
  store key [] failures = pop key failures
  store key (s ∷ stamps) failures = set_stamps key (s ∷ stamps) failures

  -- `_prune`
  unfoldable pub prune : String → ℕ → Failures → List ℕ × Failures
  unfolding stamps_of set_stamps pop
  prune key now failures =
      let stamps = keep (in_window now) (stamps_of key failures) in
      (stamps, store key stamps failures)

  unfoldable pub blocked : ℕ → String → ℕ → Failures → Bool × Failures
  unfolding prune
  blocked max_failures key now failures =
      let (stamps, pruned) = prune key now failures in (leb max_failures (length stamps), pruned)

  unfoldable pub record_failure : String → ℕ → Failures → Failures
  unfolding prune
  record_failure key now failures =
      let (stamps, pruned) = prune key now failures in set_stamps key (stamps ++ now ∷ []) pruned

unfoldable pub clear : String → Failures → Failures
unfolding pop
clear = pop
