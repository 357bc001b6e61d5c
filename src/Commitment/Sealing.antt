-- ===== src/Commitment/Sealing.antt =====
-- What a sealed bid promises: its own claim matches, and no other.
use tarmac.Prelude.{
  ℕ, ◌+◌, ◌*◌, ◌<◌, Option, none, String, ◌≡◌, refl, sym, ◌∙◌, ap, ◌⊎◌, inl, inr, true, some, List,
  [], ◌∷◌, ◌++◌, length, eqb, arith, AllBelow, append_inj, length-append, Bool-cases, Option-cases,
}
use tarmac.Prelude.Text.{◌==◌, codes}
use tarmac.Json.{Json}
use tarmac.Canonical.{canonical_bytes, sha256_hex}
use tarmac.Canonical.Bytes.{IsCollision, AllBelow-append, canonical_bytes-AllBelow}
use tarmac.Sha256.Digest.{sha256_hexdigest-ascii}
use tarmac.Storage.{ok}
use tarmac.ChainLog.TamperEvidence.{bytes_discrete}
use tarmac.Signing.{hex}
use tarmac.Signing.RoundTrip.{from_hex-hex}
use tarmac.Commitment.{
  nonce_bytes, hex_value, is_space, byte_of, from_hex, digest_of, commitment_digest, all_ascii,
  verify_commitment, Commitment, seal, matches,
}

all_ascii-AllBelow : (cs : List ℕ) → AllBelow 128 cs → all_ascii cs ≡ true
all_ascii-AllBelow [] h = refl
all_ascii-AllBelow (c ∷ cs) (small, h) = ground (arith, small, all_ascii-AllBelow cs h)

all_ascii-sha256_hex : (bytes : List ℕ) → all_ascii (codes (sha256_hex bytes)) ≡ true
unfolding sha256_hex
all_ascii-sha256_hex bytes = all_ascii-AllBelow _ (sha256_hexdigest-ascii bytes)

same_text : (s : String) → (s == s) ≡ true
same_text s = ground arith

-- The digest of a claim with 16 bytes of nonce.
commitment_digest-hex :
    (claim : Json) (bytes : List ℕ)
    → AllBelow 256 bytes
    → length bytes ≡ 16
    → commitment_digest claim (hex bytes) ≡ ok (sha256_hex (canonical_bytes claim ++ bytes))
unfolding commitment_digest digest_of
commitment_digest-hex claim bytes small sixteen =
    ap (digest_of claim) (from_hex-hex bytes small) ∙ (rw sixteen refl)

-- What a match says of the nonce and the digest.
record IsMatch (claim : Json) (nonce_hex digest : String) : Type 0 where
  bytes : List ℕ
  read : from_hex (codes nonce_hex) ≡ some bytes
  sixteen : length bytes ≡ 16
  derived : sha256_hex (canonical_bytes claim ++ bytes) ≡ digest

verify_commitment-IsMatch :
    (claim : Json) (nonce_hex digest : String)
    → verify_commitment claim nonce_hex digest ≡ ok true
    → IsMatch claim nonce_hex digest
unfolding verify_commitment commitment_digest digest_of
verify_commitment-IsMatch claim nonce_hex digest h =
    elim (Option-cases (from_hex (codes nonce_hex))) [
      | inl bad ↦ absurd (ground (arith, bad, h))
      | inr (bytes, read) ↦ elim (Bool-cases (eqb (length bytes) nonce_bytes)) [
        | inr other ↦ absurd (ground (arith, read, other, h))
        | inl sixteen ↦ record {
          bytes = bytes;
          read = read;
          sixteen = ground (arith, sixteen);
          derived = ground (arith, read, sixteen, h);
        }
      ]
    ]

-- A bid that is sealed with any 16 bytes of nonce is sealed without an exception, hands back the
-- nonce, and matches its claim with that nonce.
pub matches-seal :
    (agent : String) (claim : Json) (bytes : List ℕ)
    → AllBelow 256 bytes
    → length bytes ≡ 16
    → (c : Commitment) × (seal agent claim (hex bytes) ≡ ok (c, hex bytes))
      × (c.agent ≡ agent)
      × (matches c claim (hex bytes) ≡ ok true)
unfolding seal matches verify_commitment
matches-seal agent claim bytes small sixteen =
    let digest : String = sha256_hex (canonical_bytes claim ++ bytes) in
    let derived = commitment_digest-hex claim bytes small sixteen in
    (
      record { agent = agent; digest = digest },
      rw (seal, derived) refl,
      refl,
      rw
          (
            matches,
            verify_commitment,
            derived,
            all_ascii-sha256_hex (canonical_bytes claim ++ bytes),
            same_text digest,
          )
          refl,
    )

hex_value-lt : (c v : ℕ) → hex_value c ≡ some v → v < 16
unfolding hex_value
hex_value-lt c v h = ground arith

byte_of-AllBelow :
    (c d : ℕ) (o : Option (List ℕ)) (bs : List ℕ)
    → ((rest : List ℕ) → o ≡ some rest → AllBelow 256 rest)
    → byte_of (hex_value c) (hex_value d) o ≡ some bs
    → AllBelow 256 bs
byte_of-AllBelow c d none bs k h = ground arith
byte_of-AllBelow c d (some rest) bs k h = elim (Option-cases (hex_value c)) [
  | inl bad ↦ absurd (ground (arith, bad, h))
  | inr (u, high) ↦ elim (Option-cases (hex_value d)) [
    | inl bad ↦ absurd (ground (arith, high, bad, h))
    | inr (v, low) ↦
        let here : u * 16 + v < 256 = omega (arith, hex_value-lt c u high, hex_value-lt d v low) in
        ground (arith, high, low, h, here, k rest refl)
  ]
]

from_hex-AllBelow : (cs bs : List ℕ) → from_hex cs ≡ some bs → AllBelow 256 bs
unfolding from_hex
from_hex-AllBelow [] bs h = ground arith
from_hex-AllBelow (c ∷ []) bs h = ground arith
from_hex-AllBelow (c ∷ d ∷ cs) bs h = elim (Bool-cases (is_space c)) [
  | inl space ↦ from_hex-AllBelow (d ∷ cs) bs (rw space at h)
  | inr other ↦ byte_of-AllBelow c d (from_hex cs) bs (from_hex-AllBelow cs) (rw other at h)
]

sealed_AllBelow :
    (claim : Json) (nonce : String) (bytes : List ℕ)
    → from_hex (codes nonce) ≡ some bytes
    → AllBelow 256 (canonical_bytes claim ++ bytes)
sealed_AllBelow claim nonce bytes h =
    AllBelow-append 256 (canonical_bytes claim) bytes (canonical_bytes-AllBelow claim)
      (from_hex-AllBelow (codes nonce) bytes h)

-- Two claims with their nonces, whose bytes are a collision.
abbrev pub CollidingSeals : Json → Json → String → String → Type 0
CollidingSeals claim claim' nonce nonce' =
    (n : List ℕ) × (n' : List ℕ) × (from_hex (codes nonce) ≡ some n)
    × (from_hex (codes nonce') ≡ some n')
    × IsCollision (canonical_bytes claim ++ n) (canonical_bytes claim' ++ n')

-- A bid binds: when two claims, each with its nonce, match one commitment, their canonical bytes are
-- the same and so are the bytes of their nonces, or what was hashed for the one, its canonical bytes
-- and the bytes of its nonce, differs from what was hashed for the other and has one SHA-256 digest
-- with it.
pub matches-binds :
    (c : Commitment) (claim claim' : Json) (nonce nonce' : String)
    → matches c claim nonce ≡ ok true
    → matches c claim' nonce' ≡ ok true
    → ((canonical_bytes claim ≡ canonical_bytes claim')
        × (from_hex (codes nonce) ≡ from_hex (codes nonce')))
      ⊎ CollidingSeals claim claim' nonce nonce'
unfolding matches
matches-binds c claim claim' nonce nonce' h h' =
    let first = verify_commitment-IsMatch claim nonce c.digest h in
    let second = verify_commitment-IsMatch claim' nonce' c.digest h' in
    let sealed = canonical_bytes claim ++ first.bytes in
    let sealed' = canonical_bytes claim' ++ second.bytes in
    elim (bytes_discrete sealed sealed') [
      | no other ↦ inr (
        first.bytes,
        second.bytes,
        first.read,
        second.read,
        (
          sealed_AllBelow claim nonce first.bytes first.read,
          sealed_AllBelow claim' nonce' second.bytes second.read,
          other,
          first.derived ∙ sym second.derived,
        ),
      )
      | yes same ↦
          let long = ap length same in
          let (body, bytes) =
            append_inj (canonical_bytes claim) (canonical_bytes claim') first.bytes second.bytes
              same
              (omega (
                arith,
                long,
                length-append (canonical_bytes claim) first.bytes,
                length-append (canonical_bytes claim') second.bytes,
                first.sixteen,
                second.sixteen,
              )) in
          inl (body, first.read ∙ ap some bytes ∙ sym second.read)
    ]
