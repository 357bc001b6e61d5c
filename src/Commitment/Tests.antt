-- ===== src/Commitment/Tests.antt =====
-- Tests of sealed bids, and their theorems at a concrete claim.
use tarmac.Prelude.{ℕ, ◌≡◌, refl, true, ◌⊎◌, List, [], ◌∷◌, ◌++◌, AllBelow, arith}
use tarmac.Prelude.Text.{codes, text_discrete}
use tarmac.Json.{Json, dict, str}
use tarmac.Canonical.{canonical_bytes, sha256_hex}
use tarmac.Sha256.{hex_word, hex_digit, sha256_hexdigest}
use tarmac.Storage.{ok}
use tarmac.Signing.{hex}
use tarmac.Commitment.{
  Commitment, from_hex, hex_value, digest_of, commitment_digest, verify_commitment, seal, matches,
}
use tarmac.Commitment.Sealing.{CollidingSeals, matches-seal, matches-binds}

abbrev claim : Json
claim = dict (("resource", str "seat:QW441") ∷ ("beneficiary", str "P001") ∷ [])

-- Two spellings of one claim.
abbrev respelt : Json
respelt = dict (("beneficiary", str "P001") ∷ ("resource", str "seat:QW441") ∷ [])

abbrev nonce : List ℕ
nonce = 1 ∷ 2 ∷ 3 ∷ 4 ∷ 5 ∷ 6 ∷ 7 ∷ 8 ∷ 9 ∷ 10 ∷ 11 ∷ 12 ∷ 13 ∷ 14 ∷ 15 ∷ 255 ∷ []

nonce-bytes : AllBelow 256 nonce
nonce-bytes = ground arith

matches-seal_example :
    (c : Commitment) × (seal "rebooking" claim (hex nonce) ≡ ok (c, hex nonce))
    × (c.agent ≡ "rebooking")
    × (matches c claim (hex nonce) ≡ ok true)
matches-seal_example = matches-seal "rebooking" claim nonce nonce-bytes refl

abbrev bid : Commitment
bid = record { agent = "rebooking"; digest = sha256_hex (canonical_bytes claim ++ nonce) }

matches-claim : matches bid claim (hex nonce) ≡ ok true
unfolding matches verify_commitment commitment_digest digest_of hex hex_word hex_digit from_hex
    hex_value text_discrete canonical_bytes sha256_hex sha256_hexdigest
matches-claim = refl

matches-respelt : matches bid respelt (hex nonce) ≡ ok true
unfolding matches verify_commitment commitment_digest digest_of hex hex_word hex_digit from_hex
    hex_value text_discrete canonical_bytes sha256_hex sha256_hexdigest
matches-respelt = refl

matches-binds_example :
    ((canonical_bytes claim ≡ canonical_bytes respelt)
      × (from_hex (codes (hex nonce)) ≡ from_hex (codes (hex nonce))))
    ⊎ CollidingSeals claim respelt (hex nonce) (hex nonce)
matches-binds_example =
    matches-binds bid claim respelt (hex nonce) (hex nonce) matches-claim matches-respelt
