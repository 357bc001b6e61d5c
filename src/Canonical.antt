-- ===== src/Canonical.antt =====
-- canonical.py: deterministic JSON text (sorted keys, compact, ASCII only) and its hash.
pub mod Bytes
use tarmac.Prelude.{
  ℕ, suc, ◌+◌, ◌-◌, ◌/◌, ◌%◌, List, [], ◌∷◌, ◌++◌, String, Bool, true, false, ltb, leb, eqb,
  if◌then◌else◌, ◌≡◌, refl, ◌&&◌,
}
use tarmac.Prelude.Int.{ℤ, pos, negsuc}
use tarmac.Prelude.Text.{codes, show_ℕ, text_leb, sort_by}
use tarmac.Json.{
  Json, Items, Fields, null, bool, int, str, arr, obj, nil, cons, end, field, dict, number, texts,
}
use tarmac.Sha256.{sha256_hexdigest}

hex_code : ℕ → ℕ
hex_code d = if ltb d 10 then 48 + d else 87 + d

-- \uXXXX
unicode_escape : ℕ → List ℕ
unfolding hex_code
unicode_escape c =
    92
    ∷ 117
    ∷ hex_code (c / 4096)
    ∷ hex_code (c / 256 % 16)
    ∷ hex_code (c / 16 % 16)
    ∷ hex_code (c % 16)
    ∷ []

-- One character of a JSON string, under ensure_ascii: above 0xFFFF as a surrogate pair.
escaped : ℕ → List ℕ
unfolding unicode_escape
escaped c =
    if eqb c 34
    then 92 ∷ 34 ∷ []
    else if eqb c 92
    then 92 ∷ 92 ∷ []
    else if eqb c 10
    then 92 ∷ 110 ∷ []
    else if eqb c 13
    then 92 ∷ 114 ∷ []
    else if eqb c 9
    then 92 ∷ 116 ∷ []
    else if eqb c 12
    then 92 ∷ 102 ∷ []
    else if eqb c 8
    then 92 ∷ 98 ∷ []
    else if leb 32 c && leb c 126
    then c ∷ []
    else if ltb c 65536
    then unicode_escape c
    else unicode_escape (55296 + (c - 65536) / 1024) ++ unicode_escape (56320 + (c - 65536) % 1024)

escaped_all : List ℕ → List ℕ
unfolding escaped
escaped_all [] = 34 ∷ []
escaped_all (c ∷ cs) = escaped c ++ escaped_all cs

quoted : String → List ℕ
unfolding escaped_all
quoted s = 34 ∷ escaped_all (codes s)

int_text : ℤ → List ℕ
int_text (pos n) = codes (show_ℕ n)
int_text (negsuc n) = 45 ∷ codes (show_ℕ (suc n))

bool_text : Bool → List ℕ
bool_text true = codes "true"
bool_text false = codes "false"

-- The parts with a comma between, and a closing byte.
joined : ℕ → List (List ℕ) → List ℕ
joined close [] = close ∷ []
joined close (p ∷ []) = p ++ close ∷ []
joined close (p ∷ q ∷ ps) = p ++ 44 ∷ joined close (q ∷ ps)

member : String × List ℕ → List ℕ
unfolding quoted
member (k, v) = quoted k ++ 58 ∷ v

members : List (String × List ℕ) → List (List ℕ)
unfolding member
members [] = []
members (m ∷ ms) = member m ∷ members ms

key_leb : String × List ℕ → String × List ℕ → Bool
key_leb (j, _) (k, _) = text_leb j k

unfoldable mutual
  unfolding quoted int_text bool_text joined members key_leb show_ℕ sort_by

  -- canonical_json, as the bytes of its text.
  pub canonical_bytes : Json → List ℕ
  canonical_bytes null = codes "null"
  canonical_bytes (bool b) = bool_text b
  canonical_bytes (int n) = int_text n
  canonical_bytes (str s) = quoted s
  canonical_bytes (arr xs) = 91 ∷ joined 93 (item_bytes xs)
  canonical_bytes (obj fs) = 123 ∷ joined 125 (members (sort_by key_leb (field_bytes fs)))

  item_bytes : Items → List (List ℕ)
  item_bytes nil = []
  item_bytes (cons x xs) = canonical_bytes x ∷ item_bytes xs

  field_bytes : Fields → List (String × List ℕ)
  field_bytes end = []
  field_bytes (field k v fs) = (k, canonical_bytes v) ∷ field_bytes fs

-- sha256_hex of bytes
unfoldable pub sha256_hex : List ℕ → String
sha256_hex data_bytes = sha256_hexdigest data_bytes

unfoldable pub hash_obj : Json → String
hash_obj value = sha256_hex (canonical_bytes value)

canonical_text :
    canonical_bytes (dict (("b", number 1) ∷ ("a", texts ("x\"y" ∷ "é" ∷ [])) ∷ []))
    ≡ codes "{\"a\":[\"x\\\"y\",\"\\u00e9\"],\"b\":1}"
unfolding canonical_bytes
canonical_text = refl
