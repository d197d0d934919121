-- ===== src/Table.antt =====
-- A table of rows with a text as primary key, as the ORM session of persistence/database.py shows
-- one: lookup by key, and the write of a row that was fetched before.
pub mod Keys
use wirescope.Prelude.{
  String, ◌≡◌, ◌≢◌, ◌⊎◌, inl, inr, sym, ◌∙◌, refl, Option, none, some, List, [], ◌∷◌, ◌++◌, arith,
  str_eq, eq_iff, if◌then◌else◌, Option-cases, text-cases,
}

module _ {ℓ} {A : Type ℓ} (key : A → String) where
  -- `session.get(Model, k)`
  unfoldable pub find : String → List A → Option A
  find k [] = none
  find k (a ∷ xs) = if str_eq (key a) k then some a else find k xs

  -- The flush of a changed row.
  unfoldable pub replace : A → List A → List A
  replace a [] = []
  replace a (b ∷ xs) = if str_eq (key b) (key a) then a ∷ xs else b ∷ replace a xs

  pub key-find : (k : String) (xs : List A) (a : A) → find k xs ≡ some a → key a ≡ k
  unfolding find
  key-find k [] a h = cc
  key-find k (b ∷ xs) a h = ground (arith, eq_iff (key b) k, key-find k xs a)

  abbrev written : A → Option A → Option A
  written a none = none
  written a (some b) = some a

  -- A write is seen under its own key, where the row was there, and under no other.
  pub find-replace :
      (a : A) (k : String) (xs : List A)
      → find k (replace a xs) ≡ (if str_eq (key a) k then written a (find k xs) else find k xs)
  unfolding find replace
  find-replace a k [] = ground arith
  find-replace a k (b ∷ xs) =
      ground
        (arith, eq_iff (key b) (key a), eq_iff (key a) k, eq_iff (key b) k, find-replace a k xs)

  pub find-replace_self :
      (a b : A) (k : String) (xs : List A)
      → find k xs ≡ some b
      → key a ≡ k
      → find k (replace a xs) ≡ some a
  find-replace_self a b k xs h e = ground (arith, find-replace a k xs, eq_iff (key a) k)

  pub find-replace_ne :
      (a : A) (k : String) (xs : List A) → key a ≢ k → find k (replace a xs) ≡ find k xs
  find-replace_ne a k xs h = ground (arith, find-replace a k xs, eq_iff (key a) k)

  -- What a row found after a write was before it.
  pub find-replace-inv :
      (a b : A) (k : String) (xs : List A)
      → find k (replace a xs) ≡ some b
      → ((key a ≡ k) × (b ≡ a) × ((c : A) × (find k xs ≡ some c)))
        ⊎ ((key a ≢ k) × (find k xs ≡ some b))
  find-replace-inv a b k xs h = elim (text-cases (key a) k) [
    | inl e ↦ elim (Option-cases (find k xs)) [
      | inl f ↦ ground (arith, find-replace a k xs, eq_iff (key a) k)
      | inr (c, f) ↦ inl (e, ground (arith, find-replace_self a c k xs), (c, f))
    ]
    | inr n ↦ inr (n, sym (find-replace_ne a k xs n) ∙ h)
  ]

  pub find-append :
      (k : String) (xs : List A) (a : A)
      → find k xs ≡ none
      → find k (xs ++ a ∷ []) ≡ (if str_eq (key a) k then some a else none)
  unfolding find
  find-append k [] a h = refl
  find-append k (b ∷ xs) a h = ground (arith, eq_iff (key b) k, find-append k xs a)

  pub find-append_old :
      (k : String) (xs : List A) (a b : A) → find k xs ≡ some b → find k (xs ++ a ∷ []) ≡ some b
  unfolding find
  find-append_old k [] a b h = cc
  find-append_old k (c ∷ xs) a b h = ground (arith, eq_iff (key c) k, find-append_old k xs a b)

  pub find-append-inv :
      (k : String) (xs : List A) (a b : A)
      → find k (xs ++ a ∷ []) ≡ some b
      → (find k xs ≡ some b) ⊎ ((find k xs ≡ none) × (key a ≡ k) × (b ≡ a))
  find-append-inv k xs a b h = elim (Option-cases (find k xs)) [
    | inl e ↦ ground (arith, find-append k xs a e, eq_iff (key a) k)
    | inr (c, e) ↦ inl (e ∙ sym (find-append_old k xs a c e) ∙ h)
  ]
