-- ===== src/Currency/Log.antt =====
-- What the bank's methods write to the log is never a ruling: each keeps every property of the log
-- that the other entries keep.
use tarmac.Prelude.{ℕ, String, ◌≡◌, refl, Bool, true, false, Option, none, some, arith}
use tarmac.Prelude.Text.{◌==◌, text_discrete}
use tarmac.Json.{Json}
use tarmac.Schemas.{Position}
use tarmac.Storage.{Exec, Result, ok, err, transaction}
use tarmac.Storage.Stable.{Stable, stable_rules, Stable-modify, Stable-transaction}
use tarmac.ChainLog.{ChainLog, LogEntry, append}
use tarmac.ChainLog.Kept.{Keeps, OfLog}
use tarmac.Currency.Bank.{
  Bank, Contest, ContestStatus, restore, keep_log, emit, balance, can_contest, credit, charge,
  insert_contest,
}
use tarmac.Currency.Contests.{
  next_contest_id, stake, open_new, decline, open_or_reuse, open_contest, set_contest_status,
  open_row, pay_out, settle_row, settle, void_contest,
}
use tarmac.Currency.Reports.{snapshot}

module _ (Q : ChainLog → Type 0) (keeps : Keeps Q) where
  -- The property of the bank's log.
  abbrev pub Logged : Bank → Type 0
  Logged b = OfLog Q b.log

  emit-Logged :
      (kind : String) (body : Json) (round : ℕ)
      → (kind == "ruling") ≡ false
      → Stable Logged (emit kind body round)
  unfolding emit keep_log
  emit-Logged kind body round other = record { after = λ b h. by_log b b.log refl h }
    where
      by_result : (b : Bank) (r : Result LogEntry × ChainLog) → Q r.1 → Logged (keep_log b r).1
      by_result b (ok entry, log) h = h
      by_result b (err e, log) h = h

      by_log :
          (b : Bank) (o : Option ChainLog)
          → b.log ≡ o
          → OfLog Q o
          → Logged
              (elim o as (λ _. Result (Unit {0}) × Bank) [
                | none ↦ (ok tt, b)
                | some log ↦ keep_log b (append kind body round log)
              ]).1
      by_log b none at h = absurd h
      by_log b (some log) at h = by_result b _ (keeps.appends kind body round log other h)

  in_transaction :
      {A : Type 0} (m : Exec Bank A) → Stable Logged m → Stable Logged (transaction restore m)
  in_transaction m km = Stable-transaction restore m (λ before after h k. k) km

  opened_entry : (body : Json) (round : ℕ) → Stable Logged (emit "contest_opened" body round)
  unfolding text_discrete
  opened_entry body round = emit-Logged "contest_opened" body round refl

  declined_entry : (body : Json) (round : ℕ) → Stable Logged (emit "contest_declined" body round)
  unfolding text_discrete
  declined_entry body round = emit-Logged "contest_declined" body round refl

  settled_entry : (body : Json) (round : ℕ) → Stable Logged (emit "contest_settled" body round)
  unfolding text_discrete
  settled_entry body round = emit-Logged "contest_settled" body round refl

  void_entry : (body : Json) (round : ℕ) → Stable Logged (emit "contest_void" body round)
  unfolding text_discrete
  void_entry body round = emit-Logged "contest_void" body round refl

  next_contest_id-Logged : Stable Logged next_contest_id
  unfolding next_contest_id
  next_contest_id-Logged = record { after = λ b h. h }

  credit-Logged : (a : String) (n : ℕ) → Stable Logged (credit a n)
  unfolding credit
  credit-Logged a n = Stable-modify _ (λ b h. h)

  charge-Logged : (a : String) (n : ℕ) → Stable Logged (charge a n)
  unfolding charge
  charge-Logged a n = record { after = λ b h. ground arith }

  insert_contest-Logged : (c : Contest) → Stable Logged (insert_contest c)
  unfolding insert_contest
  insert_contest-Logged c = record { after = λ b h. ground arith }

  set_contest_status-Logged :
      (id : String) (s : ContestStatus) → Stable Logged (set_contest_status id s)
  unfolding set_contest_status
  set_contest_status-Logged id s = Stable-modify _ (λ b h. h)

  ruleset log_rules = (
    stable_rules, in_transaction, opened_entry, declined_entry, settled_entry, void_entry,
    next_contest_id-Logged, credit-Logged, charge-Logged, insert_contest-Logged,
    set_contest_status-Logged,
  )

  stake-Logged :
      (id : String) (p : Position) (cost round : ℕ) → Stable Logged (stake id p cost round)
  unfolding stake
  stake-Logged id p cost round = search log_rules depth 10

  open_new-Logged : (p : Position) (round : ℕ) → Stable Logged (open_new p round)
  unfolding open_new
  open_new-Logged p round = search (log_rules, stake-Logged) depth 12

  decline-Logged : (p : Position) (round : ℕ) → Stable Logged (decline p round)
  unfolding decline
  decline-Logged p round = search log_rules depth 10

  open_or_reuse-Logged :
      (dup : Option Contest) (p : Position) (round : ℕ) → Stable Logged (open_or_reuse dup p round)
  unfolding open_or_reuse
  open_or_reuse-Logged none p round = open_new-Logged p round
  open_or_reuse-Logged (some c) p round = search stable_rules

  can_contest-Logged : (a : String) → Stable Logged (can_contest a)
  unfolding can_contest balance
  can_contest-Logged a = search stable_rules depth 10

  pub open_contest-Logged : (p : Position) (round : ℕ) → Stable Logged (open_contest p round)
  unfolding open_contest
  open_contest-Logged p round =
      search (stable_rules, can_contest-Logged, open_or_reuse-Logged, decline-Logged) depth 12

  open_row-Logged : (id : String) → Stable Logged (open_row id)
  unfolding open_row
  open_row-Logged id = search stable_rules depth 10

  pay_out-Logged :
      (c : Contest) (id : String) (is_won : Bool) (premium : ℕ)
      → Stable Logged (pay_out c id is_won premium)
  unfolding pay_out
  pay_out-Logged c id true premium = search log_rules
  pay_out-Logged c id false premium = search log_rules

  settle_row-Logged :
      (id : String) (is_won : Bool) (round : ℕ) (c : Contest) (premium : ℕ)
      → Stable Logged (settle_row id is_won round c premium)
  unfolding settle_row
  settle_row-Logged id is_won round c premium = search (log_rules, pay_out-Logged) depth 10

  pub settle-Logged :
      (id : String) (is_won : Bool) (round : ℕ) → Stable Logged (settle id is_won round)
  unfolding settle
  settle-Logged id is_won round = search (stable_rules, open_row-Logged, settle_row-Logged) depth 10

  pub void_contest-Logged : (id : String) (round : ℕ) → Stable Logged (void_contest id round)
  unfolding void_contest
  void_contest-Logged id round = search (log_rules, open_row-Logged) depth 12

  pub snapshot-Logged : (round : ℕ) → Stable Logged (snapshot round)
  unfolding snapshot
  snapshot-Logged round = Stable-modify _ (λ b h. h)
