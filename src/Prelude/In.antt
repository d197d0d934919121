-- ===== src/Prelude/In.antt =====
-- Membership in a list.
use wirescope.Prelude.{
  subst, ◌≡◌, refl, sym, ◌⊎◌, inl, inr, Bool, true, List, [], ◌∷◌, arith, All, any, Bool-cases,
  keep,
}
use wirescope.Prelude.Sort.{insert_by, sort_by, All-sort_by}

module _ {A : Type 0} where
  abbrev pub In : A → List A → Type 0
  In a [] = ⊥
  In a (x ∷ xs) = (x ≡ a) ⊎ In a xs

  pub In-All : (P : A → Type 0) (xs : List A) (a : A) → All P xs → In a xs → P a
  In-All P [] a h i = absurd i
  In-All P (x ∷ xs) a h (inl e) = subst P e h.0
  In-All P (x ∷ xs) a h (inr i) = In-All P xs a h.1 i

  pub All-In : (P : A → Type 0) (xs : List A) → ((a : A) → In a xs → P a) → All P xs
  All-In P [] f = tt
  All-In P (x ∷ xs) f = (f x (inl refl), All-In P xs (λ a i. f a (inr i)))

  module _ (p : A → Bool) where
    pub In-keep : (a : A) (xs : List A) → In a xs → p a ≡ true → In a (keep p xs)
    In-keep a [] i q = i
    In-keep a (x ∷ xs) i q = elim (Bool-cases (p x)) [
      | inl e ↦ rw e (elim i [ inl s ↦ inl s | inr r ↦ inr (In-keep a xs r q) ])
      | inr e ↦ rw e (elim i [
        | inl s ↦ ground (arith, e, subst (λ k. p k ≡ true) (sym s) q)
        | inr r ↦ In-keep a xs r q
      ])
    ]

    pub keep-In : (xs : List A) (a : A) → In a (keep p xs) → In a xs × (p a ≡ true)
    keep-In [] a i = absurd i
    keep-In (x ∷ xs) a i = elim (Bool-cases (p x)) [
      | inl e ↦ elim (rw e at i) [
        | inl s ↦ (inl s, subst (λ k. p k ≡ true) s e)
        | inr r ↦ let (there, q) = keep-In xs a r in (inr there, q)
      ]
      | inr e ↦ let (there, q) = keep-In xs a (rw e at i) in (inr there, q)
    ]

    pub In-any : (a : A) (xs : List A) → In a xs → p a ≡ true → any p xs ≡ true
    In-any a [] i h = absurd i
    In-any a (x ∷ xs) (inl e) h = ground arith
    In-any a (x ∷ xs) (inr i) h = ground (arith, In-any a xs i h)

    pub any-In : (xs : List A) → any p xs ≡ true → (a : A) × In a xs × (p a ≡ true)
    any-In [] h = absurd (ground arith)
    any-In (x ∷ xs) h = elim (Bool-cases (p x)) [
      | inl e ↦ (x, inl refl, e)
      | inr e ↦ let (a, i, q) = any-In xs (ground arith) in (a, inr i, q)
    ]

  module _ (le : A → A → Bool) where
    In-insert_by : (a x : A) (xs : List A) → (x ≡ a) ⊎ In a xs → In a (insert_by le x xs)
    unfolding insert_by
    In-insert_by a x [] i = i
    In-insert_by a x (y ∷ ys) i = elim (Bool-cases (le x y)) [
      | inl e ↦ rw e i
      | inr e ↦ rw e (elim i [
        | inl p ↦ inr (In-insert_by a x ys (inl p))
        | inr (inl p) ↦ inl p
        | inr (inr r) ↦ inr (In-insert_by a x ys (inr r))
      ])
    ]

    pub In-sort_by : (a : A) (xs : List A) → In a xs → In a (sort_by le xs)
    unfolding sort_by
    In-sort_by a [] i = i
    In-sort_by a (x ∷ xs) (inl e) = In-insert_by a x (sort_by le xs) (inl e)
    In-sort_by a (x ∷ xs) (inr i) = In-insert_by a x (sort_by le xs) (inr (In-sort_by a xs i))

    pub sort_by-In : (a : A) (xs : List A) → In a (sort_by le xs) → In a xs
    sort_by-In a xs i =
        In-All (λ b. In b xs) (sort_by le xs) a (All-sort_by le _ xs (All-In _ xs (λ b j. j))) i
