-- ===== src/Jobs/Listings/Cuts.antt =====
-- Lists cut at a number of rows, as LIMIT and OFFSET do, and ordered by a column.
use wirescope.Prelude.{
  String, ◌++◌, All-append, ℕ, zero, suc, ◌≤◌, ◌≡◌, refl, ap, ◌⊎◌, inl, inr, List, [], ◌∷◌, take,
  drop, length, All, arith,
}
use wirescope.Table.Keys.{Distinct}
use wirescope.Prelude.In.{In, In-All}
use wirescope.Jobs.Listings.{Direction, descending, ascending}

-- Each number is at least, or at most, every later one.
abbrev pub Ordered : {A : Type 0} → Direction → (A → ℕ) → List A → Type 0
Ordered d key [] = Unit
Ordered descending key (x ∷ xs) = All (λ y. key y ≤ key x) xs × Ordered descending key xs
Ordered ascending key (x ∷ xs) = All (λ y. key x ≤ key y) xs × Ordered ascending key xs

module _ {A : Type 0} where
  pub In-cut : (n : ℕ) (xs : List A) (a : A) → In a xs → In a (take n xs) ⊎ In a (drop n xs)
  In-cut zero xs a i = inr i
  In-cut (suc n) [] a i = absurd i
  In-cut (suc n) (x ∷ xs) a (inl e) = inl (inl e)
  In-cut (suc n) (x ∷ xs) a (inr i) = elim (In-cut n xs a i) [ inl t ↦ inl (inr t) | inr d ↦ inr d ]

  pub take-In : (n : ℕ) (xs : List A) (a : A) → In a (take n xs) → In a xs
  take-In zero xs a i = absurd i
  take-In (suc n) [] a i = absurd i
  take-In (suc n) (x ∷ xs) a (inl e) = inl e
  take-In (suc n) (x ∷ xs) a (inr i) = inr (take-In n xs a i)

  pub drop-In : (n : ℕ) (xs : List A) (a : A) → In a (drop n xs) → In a xs
  drop-In zero xs a i = i
  drop-In (suc n) [] a i = absurd i
  drop-In (suc n) (x ∷ xs) a i = inr (drop-In n xs a i)

  pub length-take_le : (n : ℕ) (xs : List A) → length (take n xs) ≤ n
  length-take_le zero xs = omega arith
  length-take_le (suc n) [] = omega arith
  length-take_le (suc n) (x ∷ xs) = omega (arith, length-take_le n xs)

  pub length-take_full : (n : ℕ) (xs : List A) (a : A) → In a (drop n xs) → length (take n xs) ≡ n
  length-take_full zero xs a i = refl
  length-take_full (suc n) [] a i = absurd i
  length-take_full (suc n) (x ∷ xs) a i = ap (λ k. suc k) (length-take_full n xs a i)

  All-take : (P : A → Type 0) (n : ℕ) (xs : List A) → All P xs → All P (take n xs)
  All-take P zero xs h = tt
  All-take P (suc n) [] h = tt
  All-take P (suc n) (x ∷ xs) h = (h.0, All-take P n xs h.1)

  module _ (key : A → ℕ) where
    pub Ordered-take :
        (n : ℕ) (xs : List A) → Ordered descending key xs → Ordered descending key (take n xs)
    Ordered-take zero xs h = tt
    Ordered-take (suc n) [] h = tt
    Ordered-take (suc n) (x ∷ xs) h = (All-take _ n xs h.0, Ordered-take n xs h.1)

    pub Ordered-drop :
        (n : ℕ) (xs : List A) → Ordered descending key xs → Ordered descending key (drop n xs)
    Ordered-drop zero xs h = h
    Ordered-drop (suc n) [] h = tt
    Ordered-drop (suc n) (x ∷ xs) h = Ordered-drop n xs h.1

    pub later_le :
        (n : ℕ) (xs : List A) (a : A)
        → Ordered descending key xs
        → In a (drop n xs)
        → All (λ k. key a ≤ key k) (take n xs)
    later_le zero xs a h i = tt
    later_le (suc n) [] a h i = tt
    later_le (suc n) (x ∷ xs) a h i =
        (In-All (λ y. key y ≤ key x) xs a h.0 (drop-In n xs a i), later_le n xs a h.1 i)

  All-drop : (P : A → Type 0) (n : ℕ) (xs : List A) → All P xs → All P (drop n xs)
  All-drop P zero xs h = h
  All-drop P (suc n) [] h = tt
  All-drop P (suc n) (x ∷ xs) h = All-drop P n xs h.1

  module _ (id : A → String) where
    Distinct-take : (n : ℕ) (xs : List A) → Distinct id xs → Distinct id (take n xs)
    Distinct-take zero xs d = tt
    Distinct-take (suc n) [] d = tt
    Distinct-take (suc n) (x ∷ xs) d = (All-take _ n xs d.0, Distinct-take n xs d.1)

    -- The rows of a page and those before it.
    pub Distinct-cut :
        (n m : ℕ) (xs : List A) → Distinct id xs → Distinct id (take n xs ++ take m (drop n xs))
    Distinct-cut zero m xs d = Distinct-take m xs d
    Distinct-cut (suc n) m [] d = Distinct-take m [] d
    Distinct-cut (suc n) m (x ∷ xs) d = (
      All-append _ (take n xs) (take m (drop n xs)) (All-take _ n xs d.0)
          (All-take _ m (drop n xs) (All-drop _ n xs d.0)),
      Distinct-cut n m xs d.1,
    )

  module _ (key : A → ℕ) where
    pub Ordered-cut :
        (n m : ℕ) (xs : List A)
        → Ordered descending key xs
        → Ordered descending key (take n xs ++ take m (drop n xs))
    Ordered-cut zero m xs h = Ordered-take key m xs h
    Ordered-cut (suc n) m [] h = Ordered-take key m [] h
    Ordered-cut (suc n) m (x ∷ xs) h = (
      All-append _ (take n xs) (take m (drop n xs)) (All-take _ n xs h.0)
          (All-take _ m (drop n xs) (All-drop _ n xs h.0)),
      Ordered-cut n m xs h.1,
    )
