-- ===== src/Signing/OneKey.antt =====
-- A scheme of one key that meets the laws of Ed25519, whose signature is a checksum.
use tarmac.Prelude.{ℕ, ◌+◌, ◌%◌, ◌<◌, ◌≡◌, refl, Bool, true, false, some, List, [], ◌∷◌, eqb, arith}
use tarmac.Signing.{Ed25519}
use tarmac.Signing.RoundTrip.{IsLawful}

abbrev checksum : List ℕ → ℕ
checksum [] = 7
checksum (b ∷ bs) = (b + 31 + checksum bs) % 256

abbrev same_byte : List ℕ → ℕ → Bool
same_byte (b ∷ []) c = eqb b c
same_byte _ c = false

abbrev pub one_key : Ed25519
one_key = record {
  SigningKey = Unit {0};
  key_from_bytes = λ bytes. some tt;
  key_bytes = λ key. 1 ∷ [];
  verify_key_bytes = λ key. 171 ∷ 205 ∷ [];
  sign = λ key message. checksum message ∷ [];
  verify = λ public message signature. same_byte signature (checksum message);
}

eqb-same : (n : ℕ) → eqb n n ≡ true
eqb-same n = ground arith

checksum-lt : (bs : List ℕ) → checksum bs < 256
checksum-lt [] = omega arith
checksum-lt (b ∷ bs) = omega arith

pub one_key-IsLawful : IsLawful one_key
one_key-IsLawful = record {
  verifies = λ key message. eqb-same (checksum message);
  restores = λ key. refl;
  key_AllBelow = λ key. (omega arith, tt);
  public_AllBelow = λ key. (omega arith, (omega arith, tt));
  signature_AllBelow = λ key message. (checksum-lt message, tt);
}
