-- ===== src/Prelude/Text/Decimal.antt =====
-- Decimal numerals as texts: f"{n}", f"{n:03d}" and int(text).
use Prim.Native.Char.{Char, code}
use Prim.Native.Nat.{ℕ, zero, suc, ◌+◌, ◌-◌, ◌*◌, ◌/◌, ◌%◌}
use Prim.Native.String.{String}
use mathlib.Core.Bool.{Bool, ◌&&◌}
use mathlib.Core.Option.{Option, none, some}
use tarmac.Prelude.Tests.{ltb, leb, eqb, if◌then◌else◌}

-- The character of a digit below 10.
unfoldable pub digit : ℕ → Char
digit zero = "0"
digit (suc zero) = "1"
digit (suc (suc zero)) = "2"
digit (suc (suc (suc zero))) = "3"
digit (suc (suc (suc (suc zero)))) = "4"
digit (suc (suc (suc (suc (suc zero))))) = "5"
digit (suc (suc (suc (suc (suc (suc zero)))))) = "6"
digit (suc (suc (suc (suc (suc (suc (suc zero))))))) = "7"
digit (suc (suc (suc (suc (suc (suc (suc (suc zero)))))))) = "8"
digit (suc (suc (suc (suc (suc (suc (suc (suc (suc n))))))))) = "9"

-- The numeral of `n` before `rest`; `n + 1` rounds are enough.
unfoldable pub show_onto : ℕ → ℕ → String → String
unfolding digit
show_onto zero n rest = rest
show_onto (suc f) n rest =
    let longer = show_onto f (n / 10) (String.◌∷◌ (digit (n % 10)) rest) in
    if ltb n 10 then String.◌∷◌ (digit n) rest else longer

unfoldable pub show_ℕ : ℕ → String
unfolding show_onto
show_ℕ n = show_onto (suc n) n ""

-- `zeros k` before a text.
unfoldable pub zeros_onto : ℕ → String → String
zeros_onto zero s = s
zeros_onto (suc k) s = String.◌∷◌ "0" (zeros_onto k s)

unfoldable pub text_length : String → ℕ
text_length String.[] = 0
text_length (String.◌∷◌ c s) = suc (text_length s)

-- f"{n:0wd}"
unfoldable pub padded : ℕ → ℕ → String
unfolding show_ℕ zeros_onto text_length
padded w n = let s = show_ℕ n in zeros_onto (w - text_length s) s

abbrev pub is_digit : Char → Bool
is_digit c = leb 48 (code c) && leb (code c) 57

-- The digits read so far are worth `v`; `none` is a ValueError.
unfoldable pub digits_from : String → ℕ → Option ℕ
digits_from String.[] v = some v
digits_from (String.◌∷◌ c s) v =
    let rest = digits_from s (v * 10 + (code c - 48)) in if is_digit c then rest else none

-- int(text), for a text of ASCII digits: what the tables' ids hold.
unfoldable pub parse_int : String → Option ℕ
unfolding digits_from
parse_int String.[] = none
parse_int (String.◌∷◌ c s) = digits_from (String.◌∷◌ c s) 0

-- The text up to the next dash.
unfoldable pub until_dash : String → String
until_dash String.[] = ""
until_dash (String.◌∷◌ c s) =
    let rest = until_dash s in if eqb (code c) 45 then "" else String.◌∷◌ c rest

-- text.split("-")[1]; `none` is an IndexError.
unfoldable pub second_part : String → Option String
unfolding until_dash
second_part String.[] = none
second_part (String.◌∷◌ c s) =
    let rest = second_part s in if eqb (code c) 45 then some (until_dash s) else rest
