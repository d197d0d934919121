-- ===== src/Scope/Covering.antt =====
-- The addresses that ScopeValidator keeps (engine/scope.py): dropping duplicates and covered networks
-- loses none and adds none.
use wirescope.Prelude.{
  ℕ, ◌≡◌, refl, ◌∙◌, inl, inr, Bool, true, ◌||◌, List, [], ◌∷◌, ◌++◌, any, any-append, Bool-cases,
  arith,
}
use wirescope.Prelude.Sort.{insert_by, sort_by}
use wirescope.Scope.Networks.{Network, contains, num_addresses, subnet_of}
use wirescope.Scope.Validate.{
  comes_before, covered_by, distinct, keep_uncovered, remove_duplicates_and_covered, same_network,
}

or_swap : (a b c : Bool) → (a || (b || c)) ≡ (b || (a || c))
or_swap a b c = ground arith

module _ {ℓ} {A : Type ℓ} (le : A → A → Bool) (p : A → Bool) where
  any-insert_by : (x : A) (xs : List A) → any p (insert_by le x xs) ≡ (p x || any p xs)
  unfolding insert_by
  any-insert_by x [] = refl
  any-insert_by x (y ∷ ys) = ground (arith, any-insert_by x ys)

  any-sort_by : (xs : List A) → any p (sort_by le xs) ≡ any p xs
  unfolding sort_by
  any-sort_by [] = refl
  any-sort_by (x ∷ xs) = ground (arith, any-insert_by x (sort_by le xs), any-sort_by xs)

-- A test that a network passes if one covered by it does, and that depends on the address and prefix.
module _ (p : Network → Bool)
    (covered : (n e : Network) → covered_by n e ≡ true → p n ≡ true → p e ≡ true)
    (same : (n e : Network) → same_network n e ≡ true → p n ≡ p e) where
  any-covered :
      (n : Network) (result : List Network)
      → any (covered_by n) result ≡ true
      → p n ≡ true
      → any p result ≡ true
  any-covered n [] h c = ground arith
  any-covered n (e ∷ result) h c = elim (Bool-cases (covered_by n e)) [
    | inl q ↦ ground (arith, covered n e q c)
    | inr q ↦ ground (arith, any-covered n result)
  ]

  any-same :
      (n : Network) (ns : List Network)
      → any (same_network n) ns ≡ true
      → p n ≡ true
      → any p ns ≡ true
  any-same n [] h c = ground arith
  any-same n (e ∷ ns) h c = elim (Bool-cases (same_network n e)) [
    | inl q ↦ ground (arith, same n e q)
    | inr q ↦ ground (arith, any-same n ns)
  ]

  any-distinct : (ns : List Network) → any p (distinct ns) ≡ any p ns
  unfolding distinct
  any-distinct [] = refl
  any-distinct (n ∷ ns) = ground (arith, any-distinct ns, any-same n (distinct ns))

  any-keep_uncovered :
      (result ns : List Network) → any p (keep_uncovered result ns) ≡ (any p result || any p ns)
  unfolding keep_uncovered
  any-keep_uncovered result [] = ground arith
  any-keep_uncovered result (n ∷ ns) = elim (Bool-cases (any (covered_by n) result)) [
    | inl q ↦ rw q ground (arith, any-keep_uncovered result ns, any-covered n result q)
    | inr q ↦
        rw q ground (arith, any-keep_uncovered (result ++ n ∷ []) ns, any-append p result (n ∷ []))
  ]

  pub any-remove_duplicates_and_covered :
      (ns : List Network) → any p (remove_duplicates_and_covered ns) ≡ any p ns
  unfolding remove_duplicates_and_covered
  any-remove_duplicates_and_covered ns =
      any-keep_uncovered [] (sort_by comes_before (distinct ns))
      ∙ any-sort_by comes_before p (distinct ns)
      ∙ any-distinct ns

module _ (v x : ℕ) where
  covered_by-contains :
      (n e : Network) → covered_by n e ≡ true → contains v x n ≡ true → contains v x e ≡ true
  unfolding subnet_of num_addresses
  covered_by-contains n e c h = ground arith

  same_network-contains :
      (n e : Network) → same_network n e ≡ true → contains v x n ≡ contains v x e
  unfolding num_addresses
  same_network-contains n e c = ground arith

  -- An address lies in a kept network exactly if it lies in a given one.
  pub remove_duplicates_and_covered-contains :
      (ns : List Network)
      → any (contains v x) (remove_duplicates_and_covered ns) ≡ any (contains v x) ns
  remove_duplicates_and_covered-contains =
      any-remove_duplicates_and_covered (contains v x) covered_by-contains same_network-contains
