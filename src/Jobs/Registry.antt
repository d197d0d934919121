-- ===== src/Jobs/Registry.antt =====
-- HandlerRegistry (jobs/registry.py), over any type of handler.
use wirescope.Prelude.{
  String, ◌≡◌, refl, Option, none, some, List, [], ◌∷◌, ◌++◌, arith, str_eq, eq_iff, is_some,
  if◌then◌else◌,
}

module _ {ℓ} {H : Type ℓ} where
  -- `_handlers`, in order of registration.
  unfoldable pub resolve : String → List (String × H) → Option H
  resolve job_type [] = none
  resolve job_type ((t, h) ∷ rest) = if str_eq t job_type then some h else resolve job_type rest

  -- `none` is the ValueError for a type that is registered already.
  unfoldable pub register : String → H → List (String × H) → Option (List (String × H))
  unfolding resolve
  register job_type handler handlers =
      if is_some (resolve job_type handlers)
      then none
      else some (handlers ++ (job_type, handler) ∷ [])

  resolve-append :
      (t k : String) (h : H) (hs : List (String × H))
      → resolve t hs ≡ none
      → resolve k (hs ++ (t, h) ∷ []) ≡ (if str_eq t k then some h else resolve k hs)
  unfolding resolve
  resolve-append t k h [] e = refl
  resolve-append t k h ((j, g) ∷ hs) e =
      ground (arith, eq_iff t k, eq_iff j k, eq_iff j t, resolve-append t k h hs)

  -- A registration that is accepted is found under its type, and changes no other type's handler.
  pub resolve-register :
      (t k : String) (h : H) (hs hs' : List (String × H))
      → register t h hs ≡ some hs'
      → resolve k hs' ≡ (if str_eq t k then some h else resolve k hs)
  unfolding register
  resolve-register t k h hs hs' e = ground (arith, resolve-append t k h hs)
