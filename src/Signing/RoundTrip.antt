-- ===== src/Signing/RoundTrip.antt =====
-- Hex is read back, so a signature verifies under the key that made it.
use Prim.Native.Char.{code}
use tarmac.Prelude.{
  ℕ, zero, suc, ◌/◌, ◌%◌, ◌<◌, ◌≡◌, ◌∙◌, ap, refl, String, true, false, some, List, [], ◌∷◌,
  AllBelow, arith,
}
use tarmac.Prelude.Text.{codes}
use tarmac.Json.{Json}
use tarmac.Canonical.{canonical_bytes}
use tarmac.Sha256.{hex_word, hex_digit}
use tarmac.Commitment.{from_hex, hex_value, is_space}
use tarmac.Signing.{
  Ed25519, hex, public_hex, private_hex, keypair_from_private_hex, sign_body, verify_body,
  verify_bytes, key_of,
}

hex_value-digit :
    (d : ℕ)
    → d < 16
    → (hex_value (code (hex_digit d)) ≡ some d) × (is_space (code (hex_digit d)) ≡ false)
unfolding hex_digit hex_value
hex_value-digit zero h = (refl, refl)
hex_value-digit (suc zero) h = (refl, refl)
hex_value-digit (suc (suc zero)) h = (refl, refl)
hex_value-digit (suc (suc (suc zero))) h = (refl, refl)
hex_value-digit (suc (suc (suc (suc zero)))) h = (refl, refl)
hex_value-digit (suc (suc (suc (suc (suc zero))))) h = (refl, refl)
hex_value-digit (suc (suc (suc (suc (suc (suc zero)))))) h = (refl, refl)
hex_value-digit (suc (suc (suc (suc (suc (suc (suc zero))))))) h = (refl, refl)
hex_value-digit (suc (suc (suc (suc (suc (suc (suc (suc zero)))))))) h = (refl, refl)
hex_value-digit (suc (suc (suc (suc (suc (suc (suc (suc (suc zero))))))))) h = (refl, refl)
hex_value-digit (suc (suc (suc (suc (suc (suc (suc (suc (suc (suc zero)))))))))) h = (refl, refl)
hex_value-digit (suc (suc (suc (suc (suc (suc (suc (suc (suc (suc (suc zero))))))))))) h =
    (refl, refl)
hex_value-digit (suc (suc (suc (suc (suc (suc (suc (suc (suc (suc (suc (suc zero)))))))))))) h =
    (refl, refl)
hex_value-digit (suc (suc (suc (suc (suc (suc (suc (suc (suc (suc (suc (suc (suc zero)))))))))))))
      h =
    (refl, refl)
hex_value-digit
      (suc (suc (suc (suc (suc (suc (suc (suc (suc (suc (suc (suc (suc (suc zero)))))))))))))) h =
    (refl, refl)
hex_value-digit
      (suc (suc (suc (suc (suc (suc (suc (suc (suc (suc (suc (suc (suc (suc (suc zero)))))))))))))))
      h =
    (refl, refl)
hex_value-digit
      (suc
        (suc (suc (suc (suc (suc (suc (suc (suc (suc (suc (suc (suc (suc (suc (suc n))))))))))))))))
      h =
    absurd (omega arith)

-- A byte's two digits are read back.
from_hex-byte :
    (b : ℕ) (rest : String) (bs : List ℕ)
    → b < 256
    → from_hex (codes rest) ≡ some bs
    → from_hex (codes (hex_word 2 b rest)) ≡ some (b ∷ bs)
unfolding hex_word from_hex
from_hex-byte b rest bs small read =
    let (high, no_space) = hex_value-digit (b / 16 % 16) (omega arith) in
    let (low, _) = hex_value-digit (b % 16) (omega arith) in
    rw (no_space, high, low, read) (ap (λ n. some (n ∷ bs)) (omega arith))

pub from_hex-hex : (bs : List ℕ) → AllBelow 256 bs → from_hex (codes (hex bs)) ≡ some bs
unfolding hex from_hex
from_hex-hex [] h = refl
from_hex-hex (b ∷ bs) (small, h) = from_hex-byte b (hex bs) bs small (from_hex-hex bs h)

-- What PyNaCl documents of Ed25519: a signature verifies under the signing key's own public key,
-- a key is restored from its bytes, and what it returns are bytes.
pub record IsLawful (E : Ed25519) : Type 0 where
  pub verifies :
      (key : E.SigningKey) (message : List ℕ)
      → E.verify (E.verify_key_bytes key) message (E.sign key message) ≡ true
  pub restores : (key : E.SigningKey) → E.key_from_bytes (E.key_bytes key) ≡ some key
  pub key_AllBelow : (key : E.SigningKey) → AllBelow 256 (E.key_bytes key)
  pub public_AllBelow : (key : E.SigningKey) → AllBelow 256 (E.verify_key_bytes key)
  pub signature_AllBelow :
      (key : E.SigningKey) (message : List ℕ) → AllBelow 256 (E.sign key message)

-- With an Ed25519 that verifies its own signatures and restores its keys: the signature of a body
-- by a key is accepted with that key's public text, and a key comes back from its private text.
pub verify_body-sign_body :
    (E : Ed25519) (body : Json) (key : E.SigningKey)
    → IsLawful E
    → (verify_body E body (sign_body E body key) (public_hex E key) ≡ true)
      × (keypair_from_private_hex E (private_hex E key) ≡ some key)
unfolding verify_body verify_bytes sign_body public_hex private_hex keypair_from_private_hex key_of
verify_body-sign_body E body key law = (
  ap (λ o. verify_bytes E (canonical_bytes body) o (from_hex (codes (sign_body E body key))))
        (from_hex-hex (E.verify_key_bytes key) (law.public_AllBelow key))
      ∙ ap (λ o. verify_bytes E (canonical_bytes body) (some (E.verify_key_bytes key)) o)
          (from_hex-hex (E.sign key (canonical_bytes body)) (law.signature_AllBelow key _))
      ∙ law.verifies key (canonical_bytes body),
  ap (key_of E) (from_hex-hex (E.key_bytes key) (law.key_AllBelow key)) ∙ law.restores key,
)
