-- ===== src/ChainLog/Accepts.antt =====
-- Every log that `genesis` and `append` build passes verify_chain.
use tarmac.Prelude.{
  ℕ, suc, ◌+◌, String, ◌≡◌, refl, false, none, List, [], ◌∷◌, ◌++◌, subst, length, length-append,
  arith, ◌∙◌, inl, inr, Bool-cases, ◌&&◌, not, eqb,
}
use tarmac.Prelude.Text.{◌==◌, text_discrete}
use tarmac.Json.{Json}
use tarmac.ChainLog.{
  genesis_kind, LogEntry, ChainLog, open_chain, append, genesis, entry_hash, chain_ok, entry_fault,
  verify_from, verify_chain,
}

-- A log that passes has a first entry that passes and a rest that does.
pub verify_from-cons :
    (prev : String) (n : ℕ) (e : LogEntry) (es : List LogEntry) {m : ℕ} {h : String}
    → verify_from prev n (e ∷ es) ≡ chain_ok m h
    → (entry_fault prev n e ≡ none) × (verify_from e.hash (suc n) es ≡ chain_ok m h)
unfolding verify_from
verify_from-cons prev n e es p = ground arith

verify_from_step :
    (prev : String) (n : ℕ) (e : LogEntry) (es : List LogEntry)
    → entry_fault prev n e ≡ none
    → verify_from prev n (e ∷ es) ≡ verify_from e.hash (suc n) es
unfolding verify_from
verify_from_step prev n e es p = ground arith

verify_from-append :
    (prev : String) (n : ℕ) (es : List LogEntry) (e : LogEntry) (m : ℕ) (h : String)
    → verify_from prev n es ≡ chain_ok m h
    → entry_fault h m e ≡ none
    → verify_from prev n (es ++ e ∷ []) ≡ chain_ok (suc m) e.hash
unfolding verify_from
verify_from-append prev n [] e m h p q = ground arith
verify_from-append prev n (x ∷ es) e m h p q =
    let (fine, later) = verify_from-cons prev n x es p in
    verify_from_step prev n x (es ++ e ∷ []) fine
    ∙ verify_from-append x.hash (suc n) es e m h later q

-- A chain object whose rows pass, with its length and head.
pub record IsChained (log : ChainLog) : Type 0 where
  pub passes : verify_from "" 0 log.rows ≡ chain_ok log.length log.head
  pub counted : log.length ≡ length log.rows

-- The entry that `append` makes has no fault after the head.
entry_fault-appended :
    (kind : String) (body : Json) (round : ℕ) (log : ChainLog)
    → (eqb log.length 0 && not (kind == genesis_kind)) ≡ false
    → entry_fault log.head log.length (record {
      seq = log.length;
      round = round;
      kind = kind;
      body = body;
      prev_hash = log.head;
      hash = entry_hash log.head log.length round kind body;
    })
      ≡ none
unfolding entry_fault
entry_fault-appended kind body round log h = ground arith

pub IsChained-append :
    (kind : String) (body : Json) (round : ℕ) (log : ChainLog)
    → IsChained log
    → IsChained (append kind body round log).1
unfolding append
IsChained-append kind body round log h =
    elim (Bool-cases (eqb log.length 0 && not (kind == genesis_kind))) [
      | inl refused ↦ rw refused h
      | inr fine ↦ rw fine (record {
        passes =
            verify_from-append "" 0 log.rows _ log.length log.head h.passes
              (entry_fault-appended kind body round log fine);
        counted = omega (arith, h.counted, length-append log.rows _);
      })
    ]

-- A chain with a genesis entry and `n` entries in all.
pub record IsBuilt (n : ℕ) (log : ChainLog) : Type 0 where
  pub chained : IsChained log
  pub size : log.length ≡ suc n

IsBuilt-append :
    (kind : String) (body : Json) (round n : ℕ) (log : ChainLog)
    → IsBuilt n log
    → IsBuilt (suc n) (append kind body round log).1
IsBuilt-append kind body round n log h = record {
  chained = IsChained-append kind body round log h.chained;
  size = unfold append in ground (arith, h.size);
}

-- `append` for each (kind, body, round) in turn.
abbrev pub append_all : List (String × Json × ℕ) → ChainLog → ChainLog
append_all [] log = log
append_all ((kind, body, round) ∷ rest) log = append_all rest (append kind body round log).1

append_all-IsBuilt :
    (events : List (String × Json × ℕ)) (n : ℕ) (log : ChainLog)
    → IsBuilt n log
    → IsBuilt (n + length events) (append_all events log)
append_all-IsBuilt [] n log h = subst (λ k. IsBuilt k log) (omega arith) h
append_all-IsBuilt ((kind, body, round) ∷ rest) n log h =
    subst (λ k. IsBuilt k (append_all rest (append kind body round log).1)) (omega arith)
      (append_all-IsBuilt rest (suc n) (append kind body round log).1
        (IsBuilt-append kind body round n log h))

pub genesis-IsBuilt : (header : Json) → IsBuilt 0 (genesis header (open_chain [])).1
genesis-IsBuilt header = record {
  chained =
      unfold genesis open_chain in
      IsChained-append genesis_kind header 0 _
        (record { passes = unfold verify_from in refl; counted = refl });
  size = unfold genesis append open_chain text_discrete in refl;
}

pub verify_chain_of_from :
    (es : List LogEntry) (n : ℕ) (h : String)
    → verify_from "" 0 es ≡ chain_ok (suc n) h
    → verify_chain es ≡ chain_ok (suc n) h
unfolding verify_chain
verify_chain_of_from [] n h p = ground arith
verify_chain_of_from (e ∷ es) n h p = p

-- A log made of a genesis entry and any further appends, whatever their kinds, bodies and rounds,
-- passes verify_chain, which counts every entry and reports the log's own head.
pub built-passes :
    (header : Json) (events : List (String × Json × ℕ))
    → let log = append_all events (genesis header (open_chain [])).1 in
      verify_chain log.rows ≡ chain_ok (suc (length events)) log.head
built-passes header events =
    let log = append_all events (genesis header (open_chain [])).1 in
    let h =
      append_all-IsBuilt events 0 (genesis header (open_chain [])).1 (genesis-IsBuilt header) in
    let n : log.length ≡ suc (length events) = omega (arith, h.size) in
    verify_chain_of_from log.rows (length events) log.head (rw (← n) h.chained.passes)
