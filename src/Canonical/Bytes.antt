-- ===== src/Canonical/Bytes.antt =====
-- Canonical JSON is a sequence of bytes: every number of it is below 256.
use Prim.Native.Nat.{Ordering, compare}
use Prim.Native.Char.{Char, char, code, IsLt}
use native.Mathlib.Omega.{compare-lt}
use tarmac.Prelude.{
  ℕ, suc, ◌+◌, ◌-◌, ◌/◌, ◌%◌, ◌<◌, String, ◌≡◌, ◌≢◌, refl, Bool, true, false, List, [], ◌∷◌, ◌++◌,
  AllBelow, AllRows, arith, if◌then◌else◌, ltb, inl, inr, Bool-cases,
}
use tarmac.Prelude.Int.{ℤ, pos, negsuc}
use tarmac.Prelude.Text.{codes, sort_by}
use tarmac.Json.{Json, Items, Fields, null, bool, int, str, arr, obj, nil, cons, end, field}
use tarmac.Prelude.Text.RoundTrip.{show_ℕ-AllBelow}
use tarmac.Prelude.Sorting.{AllRows-sort_by}
use tarmac.Canonical.{
  hex_code, unicode_escape, escaped, escaped_all, quoted, int_text, bool_text, joined, member,
  members, key_leb, canonical_bytes, item_bytes, field_bytes, sha256_hex,
}

-- The three tests that make a number a character, as the native module has them.
abbrev BothLess : Ordering → Ordering → Type 0
BothLess Ordering.lt o = IsLt o
BothLess Ordering.eq _ = ⊥
BothLess Ordering.gt _ = ⊥

abbrev LessOrBoth : Ordering → Ordering → Ordering → Type 0
LessOrBoth Ordering.lt _ _ = Unit
LessOrBoth Ordering.eq o p = BothLess o p
LessOrBoth Ordering.gt o p = BothLess o p

below_lem :
    (n : ℕ) (o p q : Ordering)
    → compare n 55296 ≡ o
    → compare n 1114112 ≡ q
    → LessOrBoth o p q
    → n < 1114112
below_lem n Ordering.lt p q low high h = omega (arith, compare-lt n 55296 low)
below_lem n Ordering.eq Ordering.lt Ordering.lt low high h = compare-lt n 1114112 high
below_lem n Ordering.gt Ordering.lt Ordering.lt low high h = compare-lt n 1114112 high
below_lem n Ordering.eq Ordering.lt Ordering.eq low high h = absurd h
below_lem n Ordering.eq Ordering.lt Ordering.gt low high h = absurd h
below_lem n Ordering.gt Ordering.lt Ordering.eq low high h = absurd h
below_lem n Ordering.gt Ordering.lt Ordering.gt low high h = absurd h
below_lem n Ordering.eq Ordering.eq q low high h = absurd h
below_lem n Ordering.eq Ordering.gt q low high h = absurd h
below_lem n Ordering.gt Ordering.eq q low high h = absurd h
below_lem n Ordering.gt Ordering.gt q low high h = absurd h

code-lt : (c : Char) → code c < 1114112
code-lt (char n p) = below_lem n _ _ _ refl refl p

pub codes-AllBelow : (s : String) → AllBelow 1114112 (codes s)
codes-AllBelow String.[] = tt
codes-AllBelow (String.◌∷◌ c s) = (code-lt c, codes-AllBelow s)

pub AllBelow-append :
    (k : ℕ) (xs ys : List ℕ) → AllBelow k xs → AllBelow k ys → AllBelow k (xs ++ ys)
AllBelow-append k [] ys h g = g
AllBelow-append k (x ∷ xs) ys (first, rest) g = (first, AllBelow-append k xs ys rest g)

hex_code-lt : (d : ℕ) → d < 16 → hex_code d < 256
unfolding hex_code
hex_code-lt d h = ground arith

unicode_escape-AllBelow : (c : ℕ) → c < 65536 → AllBelow 256 (unicode_escape c)
unfolding unicode_escape
unicode_escape-AllBelow c h = (
  omega arith,
  (
    omega arith,
    (
      hex_code-lt (c / 4096) (omega (arith, h)),
      (
        hex_code-lt (c / 256 % 16) (omega arith),
        (hex_code-lt (c / 16 % 16) (omega arith), (hex_code-lt (c % 16) (omega arith), tt)),
      ),
    ),
  ),
)

escaped-AllBelow : (c : ℕ) → c < 1114112 → AllBelow 256 (escaped c)
unfolding escaped
escaped-AllBelow c h =
    let pair : AllBelow 256 (
        unicode_escape (55296 + (c - 65536) / 1024)
        ++ unicode_escape (56320 + (c - 65536) % 1024)) =
      AllBelow-append 256 (unicode_escape (55296 + (c - 65536) / 1024))
        (unicode_escape (56320 + (c - 65536) % 1024))
        (unicode_escape-AllBelow (55296 + (c - 65536) / 1024) (omega (arith, h)))
        (unicode_escape-AllBelow (56320 + (c - 65536) % 1024) (omega arith)) in
    let wide : AllBelow 256 (
        if ltb c 65536
        then unicode_escape c
        else (unicode_escape (55296 + (c - 65536) / 1024)
            ++ unicode_escape (56320 + (c - 65536) % 1024))) =
      elim (Bool-cases (ltb c 65536)) [
        | inl short ↦ rw short (unicode_escape-AllBelow c (ground (arith, short)))
        | inr long ↦ rw long pair
      ] in
    ground (arith, wide)

escaped_all-AllBelow : (cs : List ℕ) → AllBelow 1114112 cs → AllBelow 256 (escaped_all cs)
unfolding escaped_all
escaped_all-AllBelow [] h = (omega arith, tt)
escaped_all-AllBelow (c ∷ cs) (first, rest) =
    AllBelow-append 256 (escaped c) (escaped_all cs) (escaped-AllBelow c first)
      (escaped_all-AllBelow cs rest)

quoted-AllBelow : (s : String) → AllBelow 256 (quoted s)
unfolding quoted
quoted-AllBelow s = (omega arith, escaped_all-AllBelow (codes s) (codes-AllBelow s))

int_text-AllBelow : (n : ℤ) → AllBelow 256 (int_text n)
unfolding int_text
int_text-AllBelow (pos n) = show_ℕ-AllBelow n
int_text-AllBelow (negsuc n) = (omega arith, show_ℕ-AllBelow (suc n))

bool_text-AllBelow : (b : Bool) → AllBelow 256 (bool_text b)
unfolding bool_text
bool_text-AllBelow true = ground arith
bool_text-AllBelow false = ground arith

-- Parts that are bytes.
abbrev AreBytes : List (List ℕ) → Type 0
AreBytes ps = AllRows (AllBelow 256) ps

joined-AllBelow :
    (close : ℕ) (ps : List (List ℕ)) → close < 256 → AreBytes ps → AllBelow 256 (joined close ps)
unfolding joined
joined-AllBelow close [] h k = (h, tt)
joined-AllBelow close (p ∷ []) h k = AllBelow-append 256 p (close ∷ []) k.0 (h, tt)
joined-AllBelow close (p ∷ q ∷ ps) h (first, rest) =
    AllBelow-append 256 p (44 ∷ joined close (q ∷ ps)) first
      (omega arith, joined-AllBelow close (q ∷ ps) h rest)

abbrev HaveBytes : List (String × List ℕ) → Type 0
HaveBytes ms = AllRows (λ m. AllBelow 256 m.1) ms

members-AreBytes : (ms : List (String × List ℕ)) → HaveBytes ms → AreBytes (members ms)
unfolding members member
members-AreBytes [] h = tt
members-AreBytes ((k, v) ∷ ms) (first, rest) = (
  AllBelow-append 256 (quoted k) (58 ∷ v) (quoted-AllBelow k) (omega arith, first),
  members-AreBytes ms rest,
)

mutual
  unfolding canonical_bytes item_bytes field_bytes

  pub canonical_bytes-AllBelow : (j : Json) → AllBelow 256 (canonical_bytes j)
  canonical_bytes-AllBelow null = ground arith
  canonical_bytes-AllBelow (bool b) = bool_text-AllBelow b
  canonical_bytes-AllBelow (int n) = int_text-AllBelow n
  canonical_bytes-AllBelow (str s) = quoted-AllBelow s
  canonical_bytes-AllBelow (arr xs) =
      (omega arith, joined-AllBelow 93 (item_bytes xs) (omega arith) (items-AreBytes xs))
  canonical_bytes-AllBelow (obj fs) = (
    omega arith,
    joined-AllBelow 125 (members (sort_by key_leb (field_bytes fs))) (omega arith) (
        members-AreBytes (sort_by key_leb (field_bytes fs))
          (AllRows-sort_by key_leb (λ m. AllBelow 256 m.1) (field_bytes fs) (fields-HaveBytes fs))),
  )

  items-AreBytes : (xs : Items) → AreBytes (item_bytes xs)
  items-AreBytes nil = tt
  items-AreBytes (cons x xs) = (canonical_bytes-AllBelow x, items-AreBytes xs)

  fields-HaveBytes : (fs : Fields) → HaveBytes (field_bytes fs)
  fields-HaveBytes end = tt
  fields-HaveBytes (field k v fs) = (canonical_bytes-AllBelow v, fields-HaveBytes fs)

-- Two sequences of bytes that differ and have one SHA-256 digest.
abbrev pub IsCollision : List ℕ → List ℕ → Type 0
IsCollision xs ys = AllBelow 256 xs × AllBelow 256 ys × (xs ≢ ys) × (sha256_hex xs ≡ sha256_hex ys)
