-- ===== src/Sha256.antt =====
-- hashlib.sha256 (FIPS 180-4), which canonical.py and commitment.py call, on byte lists.
pub mod Digest
use Prim.Native.Nat.{bit_and, bit_xor}
use Prim.Native.Char.{Char}
use tarmac.Prelude.{
  ℕ, zero, suc, ◌+◌, ◌-◌, ◌*◌, ◌/◌, ◌%◌, ◌^◌, ◌≡◌, refl, List, [], ◌∷◌, ◌++◌, String, length, ltb,
  leb, if◌then◌else◌,
}
use tarmac.Prelude.Text.{codes}

abbrev word : ℕ
word = 4294967296

-- A word rotated or shifted to the right, and its complement.
rotr : ℕ → ℕ → ℕ
rotr k x = (x / 2 ^ k + x * 2 ^ (32 - k)) % word

shr : ℕ → ℕ → ℕ
shr k x = x / 2 ^ k

xor3 : ℕ → ℕ → ℕ → ℕ
xor3 a b c = bit_xor a (bit_xor b c)

record State : Type 0 where
  a : ℕ
  b : ℕ
  c : ℕ
  d : ℕ
  e : ℕ
  f : ℕ
  g : ℕ
  h : ℕ

initial : State
initial = record {
  a = 0x6a09e667;
  b = 0xbb67ae85;
  c = 0x3c6ef372;
  d = 0xa54ff53a;
  e = 0x510e527f;
  f = 0x9b05688c;
  g = 0x1f83d9ab;
  h = 0x5be0cd19;
}

round_constants : List ℕ
round_constants =
    0x428a2f98 ∷ 0x71374491 ∷ 0xb5c0fbcf ∷ 0xe9b5dba5 ∷ 0x3956c25b ∷ 0x59f111f1 ∷ 0x923f82a4
    ∷ 0xab1c5ed5 ∷ 0xd807aa98 ∷ 0x12835b01 ∷ 0x243185be ∷ 0x550c7dc3 ∷ 0x72be5d74 ∷ 0x80deb1fe
    ∷ 0x9bdc06a7 ∷ 0xc19bf174 ∷ 0xe49b69c1 ∷ 0xefbe4786 ∷ 0x0fc19dc6 ∷ 0x240ca1cc ∷ 0x2de92c6f
    ∷ 0x4a7484aa ∷ 0x5cb0a9dc ∷ 0x76f988da ∷ 0x983e5152 ∷ 0xa831c66d ∷ 0xb00327c8 ∷ 0xbf597fc7
    ∷ 0xc6e00bf3 ∷ 0xd5a79147 ∷ 0x06ca6351 ∷ 0x14292967 ∷ 0x27b70a85 ∷ 0x2e1b2138 ∷ 0x4d2c6dfc
    ∷ 0x53380d13 ∷ 0x650a7354 ∷ 0x766a0abb ∷ 0x81c2c92e ∷ 0x92722c85 ∷ 0xa2bfe8a1 ∷ 0xa81a664b
    ∷ 0xc24b8b70 ∷ 0xc76c51a3 ∷ 0xd192e819 ∷ 0xd6990624 ∷ 0xf40e3585 ∷ 0x106aa070 ∷ 0x19a4c116
    ∷ 0x1e376c08 ∷ 0x2748774c ∷ 0x34b0bcb5 ∷ 0x391c0cb3 ∷ 0x4ed8aa4a ∷ 0x5b9cca4f ∷ 0x682e6ff3
    ∷ 0x748f82ee ∷ 0x78a5636f ∷ 0x84c87814 ∷ 0x8cc70208 ∷ 0x90befffa ∷ 0xa4506ceb ∷ 0xbef9a3f7
    ∷ 0xc67178f2 ∷ []

-- One round, with the round's constant and message word.
round : ℕ → ℕ → State → State
unfolding rotr xor3
round k w s =
    let choice = bit_xor (bit_and s.e s.f) (bit_and (word - 1 - s.e) s.g) in
    let majority = xor3 (bit_and s.a s.b) (bit_and s.a s.c) (bit_and s.b s.c) in
    let t1 = (s.h + xor3 (rotr 6 s.e) (rotr 11 s.e) (rotr 25 s.e) + choice + k + w) % word in
    let t2 = (xor3 (rotr 2 s.a) (rotr 13 s.a) (rotr 22 s.a) + majority) % word in
    record {
      a = (t1 + t2) % word;
      b = s.a;
      c = s.b;
      d = s.c;
      e = (s.d + t1) % word;
      f = s.e;
      g = s.f;
      h = s.g;
    }

get_or_zero : List ℕ → ℕ → ℕ
get_or_zero [] i = 0
get_or_zero (x ∷ xs) zero = x
get_or_zero (x ∷ xs) (suc i) = get_or_zero xs i

-- The message schedule's next word, from a window of the last sixteen.
next_word : List ℕ → ℕ
unfolding rotr shr xor3 get_or_zero
next_word win =
    let x = get_or_zero win 1 in
    let y = get_or_zero win 14 in
    let s0 = xor3 (rotr 7 x) (rotr 18 x) (shr 3 x) in
    let s1 = xor3 (rotr 17 y) (rotr 19 y) (shr 10 y) in
    (get_or_zero win 0 + s0 + get_or_zero win 9 + s1) % word

rounds : List ℕ → List ℕ → State → State
unfolding round next_word
rounds [] win s = s
rounds (k ∷ ks) [] s = s
rounds (k ∷ ks) (w ∷ win) s = rounds ks (win ++ next_word (w ∷ win) ∷ []) (round k w s)

block : List ℕ → State → State
unfolding rounds round_constants
block win s =
    let r = rounds round_constants win s in
    record {
      a = (s.a + r.a) % word;
      b = (s.b + r.b) % word;
      c = (s.c + r.c) % word;
      d = (s.d + r.d) % word;
      e = (s.e + r.e) % word;
      f = (s.f + r.f) % word;
      g = (s.g + r.g) % word;
      h = (s.h + r.h) % word;
    }

-- Big-endian words of a byte list; a rest of fewer than four bytes is dropped.
words : List ℕ → List ℕ
words (p ∷ q ∷ r ∷ s ∷ rest) = (((p * 256 + q) * 256 + r) * 256 + s) ∷ words rest
words _ = []

-- The blocks of sixteen words, one after the other.
blocks : List ℕ → State → State
unfolding block
blocks (a ∷ b ∷ c ∷ d ∷ e ∷ f ∷ g ∷ h ∷ i ∷ j ∷ k ∷ l ∷ m ∷ n ∷ o ∷ p ∷ rest) s =
    blocks rest (block (a ∷ b ∷ c ∷ d ∷ e ∷ f ∷ g ∷ h ∷ i ∷ j ∷ k ∷ l ∷ m ∷ n ∷ o ∷ p ∷ []) s)
blocks _ s = s

zeros : ℕ → List ℕ
zeros zero = []
zeros (suc k) = 0 ∷ zeros k

-- `count` bytes of a number, the most significant first.
be_bytes : ℕ → ℕ → List ℕ → List ℕ
be_bytes zero n rest = rest
be_bytes (suc count) n rest = be_bytes count (n / 256) ((n % 256) ∷ rest)

-- The message, a bit 1, zeros, and the length in bits as eight bytes.
padding : List ℕ → List ℕ
unfolding zeros be_bytes
padding bytes =
    let n = length bytes in bytes ++ (0x80 ∷ zeros ((119 - n % 64) % 64)) ++ be_bytes 8 (n * 8) []

unfoldable pub hex_digit : ℕ → Char
hex_digit zero = "0"
hex_digit (suc zero) = "1"
hex_digit (suc (suc zero)) = "2"
hex_digit (suc (suc (suc zero))) = "3"
hex_digit (suc (suc (suc (suc zero)))) = "4"
hex_digit (suc (suc (suc (suc (suc zero))))) = "5"
hex_digit (suc (suc (suc (suc (suc (suc zero)))))) = "6"
hex_digit (suc (suc (suc (suc (suc (suc (suc zero))))))) = "7"
hex_digit (suc (suc (suc (suc (suc (suc (suc (suc zero)))))))) = "8"
hex_digit (suc (suc (suc (suc (suc (suc (suc (suc (suc zero))))))))) = "9"
hex_digit (suc (suc (suc (suc (suc (suc (suc (suc (suc (suc zero)))))))))) = "a"
hex_digit (suc (suc (suc (suc (suc (suc (suc (suc (suc (suc (suc zero))))))))))) = "b"
hex_digit (suc (suc (suc (suc (suc (suc (suc (suc (suc (suc (suc (suc zero)))))))))))) = "c"
hex_digit (suc (suc (suc (suc (suc (suc (suc (suc (suc (suc (suc (suc (suc zero))))))))))))) = "d"
hex_digit (suc (suc (suc (suc (suc (suc (suc (suc (suc (suc (suc (suc (suc (suc zero)))))))))))))) =
    "e"
hex_digit
      (suc (suc (suc (suc (suc (suc (suc (suc (suc (suc (suc (suc (suc (suc (suc n))))))))))))))) =
    "f"

unfoldable pub hex_word : ℕ → ℕ → String → String
unfolding hex_digit
hex_word zero n rest = rest
hex_word (suc count) n rest = hex_word count (n / 16) (String.◌∷◌ (hex_digit (n % 16)) rest)

-- sha256(bytes).hexdigest()
unfoldable pub sha256_hexdigest : List ℕ → String
unfolding initial blocks words padding hex_word
sha256_hexdigest bytes =
    let s = blocks (words (padding bytes)) initial in
    hex_word 8 s.a (
      hex_word 8 s.b (
        hex_word 8 s.c
          (hex_word 8 s.d (hex_word 8 s.e (hex_word 8 s.f (hex_word 8 s.g (hex_word 8 s.h "")))))))

abc_digest :
    sha256_hexdigest (codes "abc")
    ≡ "ba7816bf8f01cfea414140de5dae2223b00361a396177a9cb410ff61f20015ad"
unfolding sha256_hexdigest
abc_digest = refl
