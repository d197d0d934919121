-- ===== src/Table/Keys.antt =====
-- Primary keys: no two rows of a table share one, and each row is the one found under its key.
use wirescope.Prelude.{
  String, ◌≡◌, ◌≢◌, refl, sym, ◌∙◌, subst, inl, inr, Bool, none, some, List, [], ◌∷◌, ◌++◌, arith,
  str_eq, eq_iff, All, All-keep, All-append, keep, Bool-cases, text-cases,
}
use wirescope.Prelude.Sort.{insert_by, sort_by, All-insert_by, All-sort_by}
use wirescope.Table.{find, replace}

module _ {ℓ} {A : Type ℓ} (key : A → String) where
  -- No later row has the key.
  abbrev pub Fresh : String → List A → Type 0
  Fresh k xs = All (λ y. k ≢ key y) xs

  abbrev pub Distinct : List A → Type 0
  Distinct [] = Unit
  Distinct (x ∷ xs) = Fresh (key x) xs × Distinct xs

  pub find-Fresh : (k : String) (xs : List A) → find key k xs ≡ none → Fresh k xs
  unfolding find
  find-Fresh k [] h = tt
  find-Fresh k (x ∷ xs) h = elim (text-cases (key x) k) [
    | inl e ↦ ground (arith, eq_iff (key x) k)
    | inr n ↦ (λ p. n (sym p), find-Fresh k xs (ground (arith, eq_iff (key x) k)))
  ]

  pub Fresh-find : (k : String) (xs : List A) → Fresh k xs → find key k xs ≡ none
  unfolding find
  Fresh-find k [] h = refl
  Fresh-find k (x ∷ xs) h = elim (text-cases (key x) k) [
    | inl e ↦ absurd (h.0 (sym e))
    | inr n ↦ ground (arith, eq_iff (key x) k, Fresh-find k xs h.1)
  ]

  -- A row of a table is the one found under its key.
  pub Distinct-find : (xs : List A) → Distinct xs → All (λ x. find key (key x) xs ≡ some x) xs
  unfolding find
  Distinct-find [] h = tt
  Distinct-find (x ∷ xs) h =
      (ground (arith, eq_iff (key x) (key x)), later xs h.0 (Distinct-find xs h.1))
    where
      later :
          (ys : List A)
          → Fresh (key x) ys
          → All (λ y. find key (key y) xs ≡ some y) ys
          → All (λ y. find key (key y) (x ∷ xs) ≡ some y) ys
      later [] f a = tt
      later (y ∷ ys) f a = (ground (arith, eq_iff (key x) (key y)), later ys f.1 a.1)

  pub Distinct-append :
      (xs : List A) (a : A) → find key (key a) xs ≡ none → Distinct xs → Distinct (xs ++ a ∷ [])
  unfolding find
  Distinct-append [] a h d = (tt, tt)
  Distinct-append (x ∷ xs) a h d = elim (text-cases (key x) (key a)) [
    | inl e ↦ ground (arith, eq_iff (key x) (key a))
    | inr n ↦ (
      All-append _ xs (a ∷ []) d.0 (n, tt),
      Distinct-append xs a (ground (arith, eq_iff (key x) (key a))) d.1,
    )
  ]

  Fresh-replace : (k : String) (a : A) (xs : List A) → Fresh k xs → Fresh k (replace key a xs)
  unfolding replace
  Fresh-replace k a [] h = tt
  Fresh-replace k a (x ∷ xs) h = elim (Bool-cases (str_eq (key x) (key a))) [
    | inl e ↦ rw e (λ p. h.0 (p ∙ sym ((eq_iff (key x) (key a)).0 e)), h.1)
    | inr e ↦ rw e (h.0, Fresh-replace k a xs h.1)
  ]

  pub Distinct-replace : (a : A) (xs : List A) → Distinct xs → Distinct (replace key a xs)
  unfolding replace
  Distinct-replace a [] h = tt
  Distinct-replace a (x ∷ xs) h = elim (Bool-cases (str_eq (key x) (key a))) [
    | inl e ↦ rw e (subst (λ k. Fresh k xs) ((eq_iff (key x) (key a)).0 e) h.0, h.1)
    | inr e ↦ rw e (Fresh-replace (key x) a xs h.0, Distinct-replace a xs h.1)
  ]

  pub Distinct-keep : (p : A → Bool) (xs : List A) → Distinct xs → Distinct (keep p xs)
  Distinct-keep p [] h = tt
  Distinct-keep p (x ∷ xs) h = elim (Bool-cases (p x)) [
    | inl e ↦ rw e (All-keep _ p xs h.0, Distinct-keep p xs h.1)
    | inr e ↦ rw e (Distinct-keep p xs h.1)
  ]

  Distinct-insert_by :
      (le : A → A → Bool) (x : A) (xs : List A)
      → Fresh (key x) xs
      → Distinct xs
      → Distinct (insert_by le x xs)
  unfolding insert_by
  Distinct-insert_by le x [] f d = (tt, tt)
  Distinct-insert_by le x (y ∷ ys) f d = elim (Bool-cases (le x y)) [
    | inl e ↦ rw e (f, d)
    | inr e ↦
        rw e (All-insert_by le _ x ys (λ p. f.0 (sym p)) d.0, Distinct-insert_by le x ys f.1 d.1)
  ]

  pub Distinct-sort_by : (le : A → A → Bool) (xs : List A) → Distinct xs → Distinct (sort_by le xs)
  unfolding sort_by
  Distinct-sort_by le [] d = tt
  Distinct-sort_by le (x ∷ xs) d =
      Distinct-insert_by le x (sort_by le xs) (All-sort_by le _ xs d.0) (Distinct-sort_by le xs d.1)
