-- ===== src/Prelude/Texts.antt =====
-- Texts are compared as wholes: two are equal or not.
use Prim.Native.String.{String}
use mathlib.Core.Path.{◌≡◌}
use mathlib.Core.Bool.{false}
use native.Mathlib.Omega.{arith}
use mathlib.Core.Logic.{◌≢◌, ◌⊎◌, inl, inr}
use text.Mathlib.Text.{◌==◌ as str_eq}
use text.Mathlib.TextEquality.{eq_iff}
use wirescope.Prelude.Tests.{Bool-cases}

pub text-cases : (s t : String) → (s ≡ t) ⊎ (s ≢ t)
text-cases s t = elim (Bool-cases (str_eq s t)) [
  | inl e ↦ inl ((eq_iff s t).0 e)
  | inr e ↦ inr (λ p. cc (e, (eq_iff s t).1 p))
]

pub not_equal : (s t : String) → s ≢ t → str_eq s t ≡ false
not_equal s t n = ground (arith, eq_iff s t)
