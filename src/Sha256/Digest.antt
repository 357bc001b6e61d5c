-- ===== src/Sha256/Digest.antt =====
-- The shape of a digest: 64 ASCII characters.
use Prim.Native.Char.{code}
use tarmac.Prelude.{ℕ, zero, suc, ◌+◌, ◌/◌, ◌%◌, ◌<◌, ◌≡◌, List, String, length, AllBelow, arith}
use tarmac.Prelude.Text.{codes}
use tarmac.Sha256.{hex_digit, hex_word, sha256_hexdigest}

hex_digit-ascii : (d : ℕ) → code (hex_digit d) < 128
unfolding hex_digit
hex_digit-ascii zero = omega arith
hex_digit-ascii (suc zero) = omega arith
hex_digit-ascii (suc (suc zero)) = omega arith
hex_digit-ascii (suc (suc (suc zero))) = omega arith
hex_digit-ascii (suc (suc (suc (suc zero)))) = omega arith
hex_digit-ascii (suc (suc (suc (suc (suc zero))))) = omega arith
hex_digit-ascii (suc (suc (suc (suc (suc (suc zero)))))) = omega arith
hex_digit-ascii (suc (suc (suc (suc (suc (suc (suc zero))))))) = omega arith
hex_digit-ascii (suc (suc (suc (suc (suc (suc (suc (suc zero)))))))) = omega arith
hex_digit-ascii (suc (suc (suc (suc (suc (suc (suc (suc (suc zero))))))))) = omega arith
hex_digit-ascii (suc (suc (suc (suc (suc (suc (suc (suc (suc (suc zero)))))))))) = omega arith
hex_digit-ascii (suc (suc (suc (suc (suc (suc (suc (suc (suc (suc (suc zero))))))))))) = omega arith
hex_digit-ascii (suc (suc (suc (suc (suc (suc (suc (suc (suc (suc (suc (suc zero)))))))))))) =
    omega arith
hex_digit-ascii (suc (suc (suc (suc (suc (suc (suc (suc (suc (suc (suc (suc (suc zero))))))))))))) =
    omega arith
hex_digit-ascii
      (suc (suc (suc (suc (suc (suc (suc (suc (suc (suc (suc (suc (suc (suc zero)))))))))))))) =
    omega arith
hex_digit-ascii
      (suc (suc (suc (suc (suc (suc (suc (suc (suc (suc (suc (suc (suc (suc (suc n))))))))))))))) =
    omega arith

hex_word-ascii :
    (count n : ℕ) (rest : String)
    → AllBelow 128 (codes rest)
    → AllBelow 128 (codes (hex_word count n rest))
unfolding hex_word
hex_word-ascii zero n rest h = h
hex_word-ascii (suc count) n rest h =
    hex_word-ascii count (n / 16) (String.◌∷◌ (hex_digit (n % 16)) rest)
      (hex_digit-ascii (n % 16), h)

length-hex_word :
    (count n : ℕ) (rest : String)
    → length (codes (hex_word count n rest)) ≡ count + length (codes rest)
unfolding hex_word
length-hex_word zero n rest = omega arith
length-hex_word (suc count) n rest =
    omega (arith, length-hex_word count (n / 16) (String.◌∷◌ (hex_digit (n % 16)) rest))

pub sha256_hexdigest-ascii : (bytes : List ℕ) → AllBelow 128 (codes (sha256_hexdigest bytes))
unfolding sha256_hexdigest
sha256_hexdigest-ascii bytes = search (hex_word-ascii, tt) depth 12

pub length-sha256_hexdigest : (bytes : List ℕ) → length (codes (sha256_hexdigest bytes)) ≡ 64
unfolding sha256_hexdigest
length-sha256_hexdigest bytes = simp length-hex_word
