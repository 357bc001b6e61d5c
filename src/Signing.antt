-- ===== src/Signing.antt =====
-- signing.py: detached signatures of canonical JSON, in hex. Ed25519 itself is PyNaCl's.
pub mod RoundTrip
pub mod OneKey
mod Tests
use tarmac.Prelude.{ℕ, String, Bool, true, false, Option, none, some, List, [], ◌∷◌}
use tarmac.Prelude.Text.{codes}
use tarmac.Json.{Json}
use tarmac.Canonical.{canonical_bytes}
use tarmac.Sha256.{hex_word, sha256_hexdigest}
use tarmac.Commitment.{from_hex}

-- PyNaCl's SigningKey and VerifyKey. `key_from_bytes` raises a ValueError on a seed of another
-- length than 32; `verify` is false where VerifyKey or its verify raises.
pub record Ed25519 : Type 1 where
  pub SigningKey : Type 0
  pub key_from_bytes : List ℕ → Option SigningKey
  pub key_bytes : SigningKey → List ℕ
  pub verify_key_bytes : SigningKey → List ℕ
  pub sign : SigningKey → List ℕ → List ℕ
  pub verify : List ℕ → List ℕ → List ℕ → Bool

-- bytes.hex()
unfoldable pub hex : List ℕ → String
unfolding hex_word
hex [] = ""
hex (b ∷ bs) = hex_word 2 b (hex bs)

module _ (E : Ed25519) where
  unfoldable pub public_hex : E.SigningKey → String
  public_hex key = hex (E.verify_key_bytes key)

  unfoldable pub private_hex : E.SigningKey → String
  private_hex key = hex (E.key_bytes key)

  -- SigningKey(bytes.fromhex(text)); `none` is a ValueError.
  unfoldable pub key_of : Option (List ℕ) → Option E.SigningKey
  key_of none = none
  key_of (some seed) = E.key_from_bytes seed

  unfoldable pub keypair_from_private_hex : String → Option E.SigningKey
  keypair_from_private_hex text = key_of (from_hex (codes text))

  -- keypair_from_seed, of a seed's bytes: the key of the bytes of their digest.
  unfoldable pub keypair_from_seed : List ℕ → Option E.SigningKey
  keypair_from_seed seed = key_of (from_hex (codes (sha256_hexdigest seed)))

  unfoldable pub sign_body : Json → E.SigningKey → String
  sign_body body key = hex (E.sign key (canonical_bytes body))

  -- A text that is no hex is a ValueError, which is caught.
  unfoldable pub verify_bytes : List ℕ → Option (List ℕ) → Option (List ℕ) → Bool
  verify_bytes message (some key) (some signature) = E.verify key message signature
  verify_bytes message (some key) none = false
  verify_bytes message none signature = false

  unfoldable pub verify_body : Json → String → String → Bool
  verify_body body signature_hex public =
      verify_bytes (canonical_bytes body) (from_hex (codes public)) (from_hex (codes signature_hex))
