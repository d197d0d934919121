-- ===== src/Auth/Window.antt =====
-- What the throttle (auth/service.py) answers after any calls.
use wirescope.Prelude.{
  ℕ, ◌≤◌, String, ◌≡◌, refl, sym, ◌∙◌, ap, List, [], ◌∷◌, ◌++◌, arith, str_eq, eq_iff, leb, keep,
  length, if◌then◌else◌, inl, inr, Bool-cases,
}
use wirescope.Auth.Throttle.{
  Failures, stamps_of, set_stamps, pop, in_window, store, prune, blocked, record_failure, clear,
}

stamps_of-set_stamps :
    (k j : String) (stamps : List ℕ) (f : Failures)
    → stamps_of j (set_stamps k stamps f) ≡ (if str_eq k j then stamps else stamps_of j f)
unfolding stamps_of set_stamps
stamps_of-set_stamps k j stamps [] = refl
stamps_of-set_stamps k j stamps ((i, old) ∷ f) =
    ground (arith, eq_iff i k, eq_iff k j, eq_iff i j, stamps_of-set_stamps k j stamps f)

stamps_of-pop :
    (k j : String) (f : Failures)
    → stamps_of j (pop k f) ≡ (if str_eq k j then [] else stamps_of j f)
unfolding stamps_of pop
stamps_of-pop k j [] = ground arith
stamps_of-pop k j ((i, old) ∷ f) =
    ground (arith, eq_iff i k, eq_iff k j, eq_iff i j, stamps_of-pop k j f)

-- The calls of a throttle.
pub data Call : Type 0 where
  fails : String → ℕ → Call
  asks : String → ℕ → Call
  clears : String → Call

-- The failures of a key since it was last cleared, all of them, oldest first.
abbrev pub recorded : String → List ℕ → List Call → List ℕ
recorded k h [] = h
recorded k h (fails j t ∷ calls) = recorded k (if str_eq j k then h ++ t ∷ [] else h) calls
recorded k h (asks j t ∷ calls) = recorded k h calls
recorded k h (clears j ∷ calls) = recorded k (if str_eq j k then [] else h) calls

-- The clock does not go back: each call is at `from` or later, and the next from there on.
abbrev pub IsTimed : ℕ → List Call → ℕ → Type 0
IsTimed from [] now = from ≤ now
IsTimed from (fails j t ∷ calls) now = (from ≤ t) × IsTimed t calls now
IsTimed from (asks j t ∷ calls) now = (from ≤ t) × IsTimed t calls now
IsTimed from (clears j ∷ calls) now = IsTimed from calls now

stamps_of-store :
    (window : ℕ) (k j : String) (stamps : List ℕ) (f : Failures)
    → stamps_of j (store window k stamps f) ≡ (if str_eq k j then stamps else stamps_of j f)
stamps_of-store window k j [] f = stamps_of-pop k j f
stamps_of-store window k j (s ∷ stamps) f = stamps_of-set_stamps k j (s ∷ stamps) f

module _ (window max_failures : ℕ) where
  unfoldable pub run : List Call → Failures → Failures
  unfolding record_failure blocked clear
  run [] f = f
  run (fails j t ∷ calls) f = run calls (record_failure window j t f)
  run (asks j t ∷ calls) f = run calls (blocked window max_failures j t f).1
  run (clears j ∷ calls) f = run calls (clear j f)

  -- What is out of the window stays out.
  keep-keep :
      (t u : ℕ) (xs : List ℕ)
      → t ≤ u
      → keep (in_window window u) (keep (in_window window t) xs) ≡ keep (in_window window u) xs
  keep-keep t u [] h = refl
  keep-keep t u (x ∷ xs) h = ground (arith, keep-keep t u xs h)

  keep-append :
      (u : ℕ) (xs ys : List ℕ)
      → keep (in_window window u) (xs ++ ys)
        ≡ keep (in_window window u) xs ++ keep (in_window window u) ys
  keep-append u [] ys = refl
  keep-append u (x ∷ xs) ys = ground (arith, keep-append u xs ys)

  -- The table and a history count the same from some time on.
  abbrev Simulates : String → ℕ → Failures → List ℕ → Type 0
  Simulates k from f h =
      (u : ℕ) → from ≤ u → keep (in_window window u) (stamps_of k f) ≡ keep (in_window window u) h

  asks-Simulates :
      (k j : String) (from t : ℕ) (f : Failures) (h : List ℕ)
      → from ≤ t
      → Simulates k from f h
      → Simulates k t (blocked window max_failures j t f).1 h
  unfolding blocked prune
  asks-Simulates k j from t f h le s u later = elim (Bool-cases (str_eq j k)) [
    | inl e ↦ ground (
      arith,
      eq_iff j k,
      stamps_of-store window j k (keep (in_window window t) (stamps_of j f)) f,
      keep-keep t u (stamps_of k f) later,
      s u,
    )
    | inr e ↦
        ground
          (arith, stamps_of-store window j k (keep (in_window window t) (stamps_of j f)) f, s u)
  ]

  abbrev failed : String → String → ℕ → List ℕ → List ℕ
  failed k j t h = if str_eq j k then h ++ t ∷ [] else h

  stamps_of-record_failure :
      (k j : String) (t : ℕ) (f : Failures)
      → stamps_of k (record_failure window j t f) ≡ (
          if str_eq j k then keep (in_window window t) (stamps_of j f) ++ t ∷ [] else stamps_of k f)
  unfolding record_failure prune
  stamps_of-record_failure k j t f =
      let stamps = keep (in_window window t) (stamps_of j f) in
      ground (
        arith,
        stamps_of-set_stamps j k (stamps ++ t ∷ []) (store window j stamps f),
        stamps_of-store window j k stamps f,
      )

  fails-Simulates :
      (k j : String) (from t : ℕ) (f : Failures) (h : List ℕ)
      → from ≤ t
      → Simulates k from f h
      → Simulates k t (record_failure window j t f) (failed k j t h)
  fails-Simulates k j from t f h le s u later = elim (Bool-cases (str_eq j k)) [
    | inl e ↦
        let now_there = stamps_of-record_failure k j t f in
        let in_u = in_window window u in
        rw (now_there, e, (eq_iff j k).0 e)
          (keep-append u (keep (in_window window t) (stamps_of k f)) (t ∷ [])
            ∙ ap (λ xs. xs ++ keep in_u (t ∷ []))
                (keep-keep t u (stamps_of k f) later ∙ s u (ground arith))
            ∙ sym (keep-append u h (t ∷ [])))
    | inr e ↦ rw (stamps_of-record_failure k j t f, e) (s u (ground arith))
  ]

  clears-Simulates :
      (k j : String) (from : ℕ) (f : Failures) (h : List ℕ)
      → Simulates k from f h
      → Simulates k from (clear j f) (if str_eq j k then [] else h)
  unfolding clear
  clears-Simulates k j from f h s u later = elim (Bool-cases (str_eq j k)) [
    | inl e ↦ rw (stamps_of-pop j k f, e) refl
    | inr e ↦ rw (stamps_of-pop j k f, e) (s u later)
  ]

  run-Simulates :
      (k : String) (calls : List Call) (from now : ℕ) (f : Failures) (h : List ℕ)
      → IsTimed from calls now
      → Simulates k from f h
      → Simulates k now (run calls f) (recorded k h calls)
  unfolding run
  run-Simulates k [] from now f h timed s = λ u later. s u (omega (arith, timed))
  run-Simulates k (fails j t ∷ calls) from now f h timed s =
      run-Simulates k calls t now (record_failure window j t f) (failed k j t h) timed.1
        (fails-Simulates k j from t f h timed.0 s)
  run-Simulates k (asks j t ∷ calls) from now f h timed s =
      run-Simulates k calls t now (blocked window max_failures j t f).1 h timed.1
        (asks-Simulates k j from t f h timed.0 s)
  run-Simulates k (clears j ∷ calls) from now f h timed s =
      run-Simulates k calls from now (clear j f) (if str_eq j k then [] else h) timed
        (clears-Simulates k j from f h s)

  -- After any calls of the throttle made at times that do not go back, it answers at a later time
  -- that a key is blocked exactly if at least max_failures of all failures recorded for that key
  -- since it was last cleared lie in the window, whatever was pruned on the way and whatever other
  -- keys did.
  pub blocked-run :
      (k : String) (calls : List Call) (now : ℕ)
      → IsTimed 0 calls now
      → (blocked window max_failures k now (run calls [])).0
        ≡ leb max_failures (length (keep (in_window window now) (recorded k [] calls)))
  unfolding blocked prune
  blocked-run k calls now timed =
      ap (λ xs. leb max_failures (length xs))
        (run-Simulates k calls 0 now [] [] timed (λ u later. refl) now (omega arith))
