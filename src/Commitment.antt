-- ===== src/Commitment.antt =====
-- commitment.py: sealed bids, SHA256(canonical_claim || nonce), with a nonce of 16 bytes in hex.
-- The random bytes behind a nonce come from `secrets` or a seeded generator: they are an argument.
pub mod Sealing
mod Tests
use tarmac.Prelude.{
  ℕ, ◌+◌, ◌-◌, ◌*◌, String, Bool, true, false, ◌&&◌, ◌||◌, Option, none, some, List, [], ◌∷◌, ◌++◌,
  length, ltb, leb, eqb, if◌then◌else◌,
}
use tarmac.Prelude.Text.{◌==◌, codes}
use tarmac.Json.{Json}
use tarmac.Canonical.{canonical_bytes, sha256_hex}
use tarmac.Storage.{Result, ok, err, value_error, type_error}

abbrev pub nonce_bytes : ℕ
nonce_bytes = 16

unfoldable pub hex_value : ℕ → Option ℕ
hex_value c =
    if leb 48 c && leb c 57
    then some (c - 48)
    else if leb 97 c && leb c 102
    then some (c - 87)
    else if leb 65 c && leb c 70
    then some (c - 55)
    else none

abbrev pub is_space : ℕ → Bool
is_space c = eqb c 32 || (leb 9 c && leb c 13)

abbrev byte_of : Option ℕ → Option ℕ → Option (List ℕ) → Option (List ℕ)
byte_of (some h) (some l) (some rest) = some ((h * 16 + l) ∷ rest)
byte_of _ _ _ = none

-- bytes.fromhex: pairs of digits, with white space between pairs; `none` is a ValueError.
unfoldable pub from_hex : List ℕ → Option (List ℕ)
from_hex [] = some []
from_hex (c ∷ []) = if is_space c then some [] else none
from_hex (c ∷ d ∷ cs) =
    let skipped = from_hex (d ∷ cs) in
    let rest = from_hex cs in
    if is_space c then skipped else byte_of (hex_value c) (hex_value d) rest

unfoldable pub digest_of : Json → Option (List ℕ) → Result String
digest_of claim none = err value_error
digest_of claim (some nonce) =
    if eqb (length nonce) nonce_bytes
    then ok (sha256_hex (canonical_bytes claim ++ nonce))
    else err value_error

unfoldable pub commitment_digest : Json → String → Result String
unfolding digest_of
commitment_digest claim nonce_hex = digest_of claim (from_hex (codes nonce_hex))

abbrev pub all_ascii : List ℕ → Bool
all_ascii [] = true
all_ascii (c ∷ cs) = ltb c 128 && all_ascii cs

-- hmac.compare_digest refuses a text that is not ASCII.
unfoldable pub verify_commitment : Json → String → String → Result Bool
verify_commitment claim nonce_hex digest_hex = elim (commitment_digest claim nonce_hex) [
  | err _ ↦ ok false
  | ok derived ↦ if all_ascii (codes digest_hex) then ok (derived == digest_hex) else err type_error
]

-- A sealed bid: the digest is public, the claim and the nonce stay with the bidder.
pub record Commitment : Type 0 where
  pub agent : String
  pub digest : String

-- Commitment.seal, with the nonce that make_nonce draws.
unfoldable pub seal : String → Json → String → Result (Commitment × String)
seal agent claim nonce_hex = elim (commitment_digest claim nonce_hex) [
  | ok digest ↦ ok (record { agent = agent; digest = digest }, nonce_hex)
  | err e ↦ err e
]

-- Commitment.matches
unfoldable pub matches : Commitment → Json → String → Result Bool
matches c claim nonce_hex = verify_commitment claim nonce_hex c.digest
