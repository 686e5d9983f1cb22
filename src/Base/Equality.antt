-- ===== src/Base/Equality.antt =====
-- Python's `==` and `in` on texts, through a decision, so that a split yields the equation.
use Prim.Native.String.{String}
use mathlib.Core.Logic.{ite, dite}
use mathlib.Core.Bool.{Bool, true, false, ◌||◌, Bool-discrete}
use mathlib.Core.List.{List, [], ◌∷◌}
use text.Mathlib.Text
use text.Mathlib.TextEquality.{eq_iff}

-- Shut in proofs; tests unfold it.
unfoldable pub text_dec : Discrete String
text_dec s t =
    dite (Bool-discrete (Text.◌==◌ s t) true) (λ same. yes ((eq_iff s t).0 same))
      (λ differ. no (λ p. differ ((eq_iff s t).1 p)))

infix 50 ◌==◌
abbrev pub ◌==◌ : String → String → Bool
s == t = ite (text_dec s t) true false

-- `s in (…)`
abbrev pub one_of : String → List String → Bool
one_of s [] = false
one_of s (t ∷ ts) = s == t || one_of s ts
