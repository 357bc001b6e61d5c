-- ===== src/Prelude/Text/RoundTrip.antt =====
-- A numeral reads back as its number, with zeros before it too.
use Prim.Native.Char.{Char, code}
use Prim.Native.Nat.{ℕ, zero, suc, ◌+◌, ◌-◌, ◌*◌, ◌/◌, ◌%◌, ◌<◌}
use Prim.Native.String.{String}
use mathlib.Core.Path.{◌≡◌, refl, ap, ◌∙◌}
use mathlib.Core.Logic.{inl, inr}
use mathlib.Core.Bool.{true}
use mathlib.Core.Option.{some}
use native.Mathlib.Omega.{arith}
use tarmac.Prelude.Tests.{Bool-cases, ltb}
use tarmac.Prelude.Lists.{AllBelow}
use tarmac.Prelude.Text.Equality.{codes}
use tarmac.Prelude.Text.Decimal.{
  digit, show_onto, show_ℕ, zeros_onto, text_length, padded, is_digit, digits_from, parse_int,
  until_dash,
}

code-digit : (d : ℕ) → d < 10 → code (digit d) ≡ 48 + d
unfolding digit
code-digit zero h = refl
code-digit (suc zero) h = refl
code-digit (suc (suc zero)) h = refl
code-digit (suc (suc (suc zero))) h = refl
code-digit (suc (suc (suc (suc zero)))) h = refl
code-digit (suc (suc (suc (suc (suc zero))))) h = refl
code-digit (suc (suc (suc (suc (suc (suc zero)))))) h = refl
code-digit (suc (suc (suc (suc (suc (suc (suc zero))))))) h = refl
code-digit (suc (suc (suc (suc (suc (suc (suc (suc zero)))))))) h = refl
code-digit (suc (suc (suc (suc (suc (suc (suc (suc (suc n))))))))) h = omega arith

digit_value :
    (c : Char) (d : ℕ) → d < 10 → code c ≡ 48 + d → (is_digit c ≡ true) × (code c - 48 ≡ d)
digit_value c d h e = ground arith

digits_from-digit :
    (d v : ℕ) (s : String)
    → d < 10
    → digits_from (String.◌∷◌ (digit d) s) v ≡ digits_from s (v * 10 + d)
unfolding digits_from
digits_from-digit d v s h =
    let (is, value) = digit_value (digit d) d h (code-digit d h) in rw (is, value) refl

digits_from-show_onto :
    (f n : ℕ) (s : String) → n < f → digits_from (show_onto f n s) 0 ≡ digits_from s n
unfolding show_onto
digits_from-show_onto zero n s h = elim h [ ]
digits_from-show_onto (suc f) n s h = ground (
  arith,
  digits_from-digit n 0 s,
  digits_from-digit (n % 10) (n / 10) s,
  digits_from-show_onto f (n / 10) (String.◌∷◌ (digit (n % 10)) s),
)

digits_from-zeros : (k : ℕ) (s : String) → digits_from (zeros_onto k s) 0 ≡ digits_from s 0
unfolding digits_from zeros_onto
digits_from-zeros zero s = refl
digits_from-zeros (suc k) s = digits_from-zeros k s

until_dash-digit :
    (d : ℕ) (s : String)
    → d < 10
    → until_dash (String.◌∷◌ (digit d) s) ≡ String.◌∷◌ (digit d) (until_dash s)
unfolding until_dash
until_dash-digit d s h = rw (code-digit d h) (ground arith)

until_dash-show_onto :
    (f n : ℕ) (s : String) → until_dash (show_onto f n s) ≡ show_onto f n (until_dash s)
unfolding show_onto
until_dash-show_onto zero n s = refl
until_dash-show_onto (suc f) n s = ground (
  arith,
  until_dash-digit n s,
  until_dash-digit (n % 10) s,
  until_dash-show_onto f (n / 10) (String.◌∷◌ (digit (n % 10)) s),
)

until_dash-zeros : (k : ℕ) (s : String) → until_dash (zeros_onto k s) ≡ zeros_onto k (until_dash s)
unfolding until_dash zeros_onto
until_dash-zeros zero s = refl
until_dash-zeros (suc k) s = ap (String.◌∷◌ "0") (until_dash-zeros k s)

-- A padded numeral has no dash.
pub until_dash-padded : (w n : ℕ) → until_dash (padded w n) ≡ padded w n
unfolding padded show_ℕ until_dash
until_dash-padded w n = rw (until_dash-zeros, until_dash-show_onto) refl

digits_from-padded : (w n : ℕ) → digits_from (padded w n) 0 ≡ some n
unfolding padded show_ℕ digits_from
digits_from-padded w n =
    rw (digits_from-zeros, digits_from-show_onto (suc n) n "" (omega arith)) refl

abbrev IsCons : String → Type 0
IsCons String.[] = ⊥
IsCons (String.◌∷◌ c s) = Unit

show_onto-IsCons : (f n : ℕ) (s : String) → IsCons s → IsCons (show_onto f n s)
unfolding show_onto
show_onto-IsCons zero n s h = h
show_onto-IsCons (suc f) n s h = elim (Bool-cases (ltb n 10)) [
  | inl short ↦ rw short tt
  | inr long ↦ rw long (show_onto-IsCons f (n / 10) (String.◌∷◌ (digit (n % 10)) s) tt)
]

show_ℕ-IsCons : (n : ℕ) → IsCons (show_ℕ n)
unfolding show_ℕ
show_ℕ-IsCons n = elim (Bool-cases (ltb n 10)) [
  | inl short ↦ rw short tt
  | inr long ↦ rw long (show_onto-IsCons n (n / 10) (String.◌∷◌ (digit (n % 10)) "") tt)
]

zeros-IsCons : (k : ℕ) (s : String) → IsCons s → IsCons (zeros_onto k s)
unfolding zeros_onto
zeros-IsCons zero s h = h
zeros-IsCons (suc k) s h = tt

padded-IsCons : (w n : ℕ) → IsCons (padded w n)
unfolding padded
padded-IsCons w n = zeros-IsCons (w - text_length (show_ℕ n)) (show_ℕ n) (show_ℕ-IsCons n)

parse_int_of_cons : (s : String) → IsCons s → parse_int s ≡ digits_from s 0
unfolding parse_int
parse_int_of_cons String.[] h = absurd h
parse_int_of_cons (String.◌∷◌ c s) h = refl

-- int(f"{n:0wd}") == n
pub parse_int-padded : (w n : ℕ) → parse_int (padded w n) ≡ some n
parse_int-padded w n = parse_int_of_cons (padded w n) (padded-IsCons w n) ∙ digits_from-padded w n

-- A numeral is ASCII.
digit-byte : (d : ℕ) → d < 10 → code (digit d) < 256
digit-byte d h = omega (arith, h, code-digit d h)

show_onto-AllBelow :
    (f n : ℕ) (s : String) → AllBelow 256 (codes s) → AllBelow 256 (codes (show_onto f n s))
unfolding show_onto
show_onto-AllBelow zero n s h = h
show_onto-AllBelow (suc f) n s h = elim (Bool-cases (ltb n 10)) [
  | inl small ↦ rw small (digit-byte n (ground (arith, small)), h)
  | inr big ↦ rw big (
      show_onto-AllBelow f (n / 10) (String.◌∷◌ (digit (n % 10)) s)
        (digit-byte (n % 10) (omega arith), h))
]

pub show_ℕ-AllBelow : (n : ℕ) → AllBelow 256 (codes (show_ℕ n))
unfolding show_ℕ
show_ℕ-AllBelow n = show_onto-AllBelow (suc n) n "" tt
