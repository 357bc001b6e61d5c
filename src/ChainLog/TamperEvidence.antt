-- ===== src/ChainLog/TamperEvidence.antt =====
-- What verify_chain protects: two logs that pass with one length and one head hold the same
-- entries, byte for byte, or else two entries at one place of them are a collision of SHA-256.
use native.Mathlib.Decide.{ℕ_discrete}
use tarmac.Prelude.{
  ℕ, suc, ◌+◌, ◌<◌, String, ◌≡◌, refl, sym, ap, ◌∙◌, none, List, [], ◌∷◌, ◌++◌, length, arith, ◌⊎◌,
  inl, inr, AllBelow, append_inj,
}
use tarmac.Prelude.Text.{codes, codes_injective}
use tarmac.Json.{Json}
use tarmac.Canonical.{canonical_bytes, sha256_hex}
use tarmac.Canonical.Bytes.{IsCollision, AllBelow-append, codes-AllBelow, canonical_bytes-AllBelow}
use tarmac.Sha256.Digest.{sha256_hexdigest-ascii, length-sha256_hexdigest}
use tarmac.ChainLog.{
  LogEntry, entry_hash, preimage, envelope, utf8_char, utf8, chain_ok, entry_fault, verify_from,
  verify_chain,
}
use tarmac.ChainLog.Accepts.{verify_from-cons}

-- The bytes that the hash of an entry is taken of.
abbrev pub hashed_bytes : LogEntry → List ℕ
hashed_bytes e = preimage e.prev_hash e.seq e.round e.kind e.body

-- Somewhere the two logs have, at one place, entries whose hashed bytes are a collision.
abbrev pub CollisionIn : List LogEntry → List LogEntry → Type 0
CollisionIn (e ∷ es) (f ∷ fs) = IsCollision (hashed_bytes e) (hashed_bytes f) ⊎ CollisionIn es fs
CollisionIn _ _ = ⊥

-- The same links, hashes, sequence numbers and hashed content at each place.
abbrev pub SameEntries : List LogEntry → List LogEntry → Type 0
SameEntries [] [] = Unit
SameEntries (e ∷ es) (f ∷ fs) =
    (e.seq ≡ f.seq)
    × (e.prev_hash ≡ f.prev_hash)
    × (e.hash ≡ f.hash)
    × (canonical_bytes (envelope e.seq e.round e.kind e.body)
        ≡ canonical_bytes (envelope f.seq f.round f.kind f.body))
    × SameEntries es fs
SameEntries _ _ = ⊥

pub bytes_discrete : Discrete (List ℕ)
bytes_discrete = hlevel ℕ_discrete

-- A text that hashing can sit in front of: ASCII, of known length.
abbrev IsPrefixOf : ℕ → String → Type 0
IsPrefixOf n s = AllBelow 128 (codes s) × (length (codes s) ≡ n)

utf8_char-AllBelow : (c : ℕ) → c < 1114112 → AllBelow 256 (utf8_char c)
unfolding utf8_char
utf8_char-AllBelow c h = ground (arith, h)

utf8-AllBelow : (cs : List ℕ) → AllBelow 1114112 cs → AllBelow 256 (utf8 cs)
unfolding utf8
utf8-AllBelow [] h = tt
utf8-AllBelow (c ∷ cs) (first, rest) =
    AllBelow-append 256 (utf8_char c) (utf8 cs) (utf8_char-AllBelow c first) (utf8-AllBelow cs rest)

hashed_bytes-AllBelow : (e : LogEntry) → AllBelow 256 (hashed_bytes e)
unfolding preimage
hashed_bytes-AllBelow e =
    AllBelow-append 256 (utf8 (codes e.prev_hash))
      (canonical_bytes (envelope e.seq e.round e.kind e.body))
      (utf8-AllBelow (codes e.prev_hash) (codes-AllBelow e.prev_hash))
      (canonical_bytes-AllBelow (envelope e.seq e.round e.kind e.body))

utf8-ascii : (cs : List ℕ) → AllBelow 128 cs → utf8 cs ≡ cs
unfolding utf8 utf8_char
utf8-ascii [] h = refl
utf8-ascii (c ∷ cs) h = ground (arith, utf8-ascii cs h.1)

same_preimage :
    (n : ℕ) (p q : String) (a b : List ℕ)
    → IsPrefixOf n p
    → IsPrefixOf n q
    → utf8 (codes p) ++ a ≡ utf8 (codes q) ++ b
    → (p ≡ q) × (a ≡ b)
same_preimage n p q a b hp hq e =
    let e' : codes p ++ a ≡ codes q ++ b =
      rw (utf8-ascii (codes p) hp.0, utf8-ascii (codes q) hq.0) at e in
    let (pq, ab) = append_inj (codes p) (codes q) a b e' (omega arith) in
    (codes_injective p q pq, ab)

entry_hash-IsPrefixOf :
    (p : String) (n r : ℕ) (k : String) (b : Json) → IsPrefixOf 64 (entry_hash p n r k b)
unfolding entry_hash sha256_hex
entry_hash-IsPrefixOf p n r k b = (sha256_hexdigest-ascii _, length-sha256_hexdigest _)

-- What an entry without a fault satisfies.
record IsLinked (prev : String) (n : ℕ) (e : LogEntry) : Type 0 where
  seq : e.seq ≡ n
  link : e.prev_hash ≡ prev
  derived : e.hash ≡ entry_hash prev n e.round e.kind e.body

entry_fault-IsLinked :
    (prev : String) (n : ℕ) (e : LogEntry) → entry_fault prev n e ≡ none → IsLinked prev n e
unfolding entry_fault
entry_fault-IsLinked prev n e h = ground arith

-- The content of two linked entries that hash to one digest, or the collision.
same_link :
    (n k : ℕ) (p q : String) (e f : LogEntry)
    → IsPrefixOf k p
    → IsPrefixOf k q
    → IsLinked p n e
    → IsLinked q n f
    → e.hash ≡ f.hash
    → ((p ≡ q)
        × (canonical_bytes (envelope e.seq e.round e.kind e.body)
            ≡ canonical_bytes (envelope f.seq f.round f.kind f.body)))
      ⊎ IsCollision (hashed_bytes e) (hashed_bytes f)
unfolding entry_hash preimage
same_link n k p q e f hp hq le lf same =
    let bytes : hashed_bytes e ≡ preimage p n e.round e.kind e.body = rw (le.seq, le.link) refl in
    let bytes' : hashed_bytes f ≡ preimage q n f.round f.kind f.body = rw (lf.seq, lf.link) refl in
    elim (bytes_discrete (hashed_bytes e) (hashed_bytes f)) [
      | yes eq ↦ inl (rw (le.seq, lf.seq) (same_preimage k p q _ _ hp hq (sym bytes ∙ eq ∙ bytes')))
      | no ne ↦ inr (
        hashed_bytes-AllBelow e,
        hashed_bytes-AllBelow f,
        ne,
        ap sha256_hex bytes ∙ sym le.derived ∙ same ∙ lf.derived ∙ ap sha256_hex (sym bytes'),
      )
    ]

verify_from_count :
    (p : String) (n m : ℕ) (h : String) (es : List LogEntry)
    → verify_from p n es ≡ chain_ok m h
    → m ≡ n + length es
verify_from_count p n m h [] a = unfold verify_from in ground arith
verify_from_count p n m h (e ∷ es) a =
    let (fine, rest) = verify_from-cons p n e es a in
    omega (arith, verify_from_count e.hash (suc n) m h es rest)

hash-IsPrefixOf : (p : String) (n : ℕ) (e : LogEntry) → IsLinked p n e → IsPrefixOf 64 e.hash
hash-IsPrefixOf p n e l = rw l.derived (entry_hash-IsPrefixOf p n e.round e.kind e.body)

-- One more entry in front of two logs that agree from their second entries on.
same_cons :
    (n k : ℕ) (p q : String) (e f : LogEntry) (es fs : List LogEntry)
    → IsPrefixOf k p
    → IsPrefixOf k q
    → IsLinked p n e
    → IsLinked q n f
    → ((e.hash ≡ f.hash) × SameEntries es fs) ⊎ CollisionIn es fs
    → ((p ≡ q) × SameEntries (e ∷ es) (f ∷ fs)) ⊎ CollisionIn (e ∷ es) (f ∷ fs)
same_cons n k p q e f es fs hp hq le lf (inr c) = inr (inr c)
same_cons n k p q e f es fs hp hq le lf (inl (same, rest)) =
    elim (same_link n k p q e f hp hq le lf same) [
      | inl (pq, content) ↦
          inl (pq, (le.seq ∙ sym lf.seq, le.link ∙ pq ∙ sym lf.link, same, content, rest))
      | inr c ↦ inr (inl c)
    ]

same_from :
    (n k m : ℕ) (p q h : String) (es fs : List LogEntry)
    → IsPrefixOf k p
    → IsPrefixOf k q
    → verify_from p n es ≡ chain_ok m h
    → verify_from q n fs ≡ chain_ok m h
    → ((p ≡ q) × SameEntries es fs) ⊎ CollisionIn es fs
same_from n k m p q h [] [] hp hq a b = unfold verify_from in inl (ground arith)
same_from n k m p q h [] (f ∷ fs) hp hq a b =
    absurd (omega (arith, verify_from_count p n m h [] a, verify_from_count q n m h (f ∷ fs) b))
same_from n k m p q h (e ∷ es) [] hp hq a b =
    absurd (omega (arith, verify_from_count p n m h (e ∷ es) a, verify_from_count q n m h [] b))
same_from n k m p q h (e ∷ es) (f ∷ fs) hp hq a b =
    let (fine, rest) = verify_from-cons p n e es a in
    let (fine', rest') = verify_from-cons q n f fs b in
    let le = entry_fault-IsLinked p n e fine in
    let lf = entry_fault-IsLinked q n f fine' in
    same_cons n k p q e f es fs hp hq le lf (
      same_from (suc n) 64 m e.hash f.hash h es fs (hash-IsPrefixOf p n e le)
        (hash-IsPrefixOf q n f lf) rest rest')

from_of_verify_chain :
    (es : List LogEntry) (n : ℕ) (h : String)
    → verify_chain es ≡ chain_ok n h
    → verify_from "" 0 es ≡ chain_ok n h
unfolding verify_chain
from_of_verify_chain [] n h a = cc
from_of_verify_chain (e ∷ es) n h a = a

-- Two logs that pass verify_chain with one number of entries and one head have the same sequence
-- numbers, links, hashes and hashed bytes at each place, or there is a place where the bytes that
-- the two entries are hashes of differ and yet have one SHA-256 digest.
pub same-heads :
    (es fs : List LogEntry) (n : ℕ) (h : String)
    → verify_chain es ≡ chain_ok n h
    → verify_chain fs ≡ chain_ok n h
    → SameEntries es fs ⊎ CollisionIn es fs
same-heads es fs n h a b =
    elim (same_from 0 0 n "" "" h es fs (tt, refl) (tt, refl) (from_of_verify_chain es n h a)
      (from_of_verify_chain fs n h b)) [ inl (_, same) ↦ inl same | inr c ↦ inr c ]
