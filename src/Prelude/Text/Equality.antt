-- ===== src/Prelude/Text/Equality.antt =====
-- Equality of texts as a decision, which the tactics split on and learn an equation from.
use Prim.Native.Char.{code}
use Prim.Native.Nat.{ℕ}
use Prim.Native.String.{String, ◌++◌}
use mathlib.Core.Path.{◌≡◌, refl, ap₂}
use mathlib.Core.Bool.{Bool, true, false}
use mathlib.Core.List.{List, [], ◌∷◌}
use text.Mathlib.Text.{◌==◌ as text_eq}
use text.Mathlib.TextEquality.{eq_iff, Char-path}
use native.Mathlib.Omega.{arith}
use tarmac.Prelude.Tests.{if◌then◌else◌}

text_discrete_by : (s t : String) (b : Bool) → text_eq s t ≡ b → Dec (s ≡ t)
text_discrete_by s t true h = yes ((eq_iff s t).0 h)
text_discrete_by s t false h = no (λ e. ground (arith, (eq_iff s t).1 e))

unfoldable pub text_discrete : Discrete String
unfolding text_discrete_by
text_discrete s t = text_discrete_by s t (text_eq s t) refl

infix 50 ◌==◌
abbrev pub ◌==◌ : String → String → Bool
s == t = elim (text_discrete s t) [ yes _ ↦ true | no _ ↦ false ]

-- The code points: the bytes too, if the text is ASCII.
abbrev pub codes : String → List ℕ
codes String.[] = []
codes (String.◌∷◌ c s) = code c ∷ codes s

pub codes_injective : (s t : String) → codes s ≡ codes t → s ≡ t
codes_injective String.[] String.[] e = refl
codes_injective String.[] (String.◌∷◌ d t) e = cc
codes_injective (String.◌∷◌ c s) String.[] e = cc
codes_injective (String.◌∷◌ c s) (String.◌∷◌ d t) e =
    ap₂ String.◌∷◌ (Char-path c d (cc)) (codes_injective s t (cc))

-- An f-string's parts, one after the other.
abbrev pub concat : List String → String
concat [] = ""
concat (s ∷ rest) = s ++ concat rest

-- s in texts
abbrev pub member : String → List String → Bool
member s [] = false
member s (t ∷ ts) = if s == t then true else member s ts
