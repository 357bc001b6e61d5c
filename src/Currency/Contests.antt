-- ===== src/Currency/Contests.antt =====
-- Opening, settling and voiding contests.
use tarmac.Prelude.{
  ℕ, suc, ◌+◌, String, Bool, true, false, not, ◌&&◌, Option, none, some, List, [], ◌∷◌, filterb,
  findb, updateb, if◌then◌else◌,
}
use tarmac.Prelude.Text.{◌==◌, text_leb, sort_by}
use tarmac.Json.{dict, str, number, bool}
use tarmac.Schemas.{Position, is_block}
use tarmac.Storage.{
  Exec, ok, currency_error, not_blocking, unknown_contest, already_settled, pure, raise_if, gets,
  expect, modify, transaction, ◌>>=◌, ◌>>◌,
}
use tarmac.Currency.Bank.{
  Bank, Contest, ContestStatus, open_, won, lost, void_, restore, contest_in, emit, can_contest,
  contest_id_text, credit, charge, insert_contest,
}

abbrev pub is_open : ContestStatus → Bool
is_open open_ = true
is_open _ = false

-- WHERE agent=? AND target_claim=? AND status='open'
abbrev pub same_contest : String → String → Contest → Bool
same_contest a target c = (c.agent == a) && ((c.target_claim == target) && is_open c.status)

unfoldable pub next_contest_id : Exec Bank String
next_contest_id b = let n = suc b.seq in (ok (contest_id_text n), record b { seq = n })

-- The transaction of open_contest: the stake and the row.
unfoldable pub stake : String → Position → ℕ → ℕ → Exec Bank Unit
stake id p cost round = do
  charge p.agent cost
  insert_contest (record {
    id = id;
    agent = p.agent;
    target_claim = p.target_claim;
    round_opened = round;
    status = open_;
    cost = cost;
    position = p;
  })

unfoldable pub open_new : Position → ℕ → Exec Bank (Option String)
open_new p round = do
  id ← next_contest_id
  cost ← gets (λ b. b.contest_cost)
  transaction restore (stake id p cost round)
  emit "contest_opened"
      (dict (
        ("contest_id", str id)
        ∷ ("agent", str p.agent)
        ∷ ("target_claim", str p.target_claim)
        ∷ ("cost", number cost)
        ∷ []))
      round
  pure (some id)

unfoldable pub decline : Position → ℕ → Exec Bank (Option String)
decline p round = do
  emit "contest_declined"
      (dict (
        ("agent", str p.agent)
        ∷ ("target_claim", str p.target_claim)
        ∷ ("reason", str "insufficient budget")
        ∷ []))
      round
  pure none

-- One open contest for an agent and a target: the one that is there, or a new one.
unfoldable pub open_or_reuse : Option Contest → Position → ℕ → Exec Bank (Option String)
open_or_reuse (some c) p round = pure (some c.id)
open_or_reuse none p round = open_new p round

unfoldable pub open_contest : Position → ℕ → Exec Bank (Option String)
open_contest p round = do
  raise_if (not (is_block p.stance)) (currency_error not_blocking)
  affordable ← can_contest p.agent
  dup ← gets (λ b. findb (same_contest p.agent p.target_claim) b.contests)
  if affordable then open_or_reuse dup p round else decline p round

contest_leb : Contest → Contest → Bool
contest_leb c d = text_leb c.id d.id

-- The open contests, by id.
unfoldable pub open_contests : Bank → List Contest
unfolding contest_leb
open_contests b = sort_by contest_leb (filterb (λ c. is_open c.status) b.contests)

abbrev pub with_status : ContestStatus → Contest → Contest
with_status s c = record c { status = s }

-- UPDATE contests SET status=? WHERE id=?
unfoldable pub set_contest_status : String → ContestStatus → Exec Bank Unit
set_contest_status id s =
    modify (λ b. record b { contests = updateb (λ c. c.id == id) (with_status s) b.contests })

-- The row of an open contest, or the fault.
unfoldable pub open_row : String → Exec Bank Contest
open_row id = do
  c ← expect (← gets (λ b. contest_in id b.contests)) (currency_error (unknown_contest id))
  raise_if (not (is_open c.status)) (currency_error (already_settled id))
  pure c

-- The transaction of settle.
unfoldable pub pay_out : Contest → String → Bool → ℕ → Exec Bank Unit
pay_out c id true premium = credit c.agent (c.cost + premium) >> set_contest_status id won
pay_out c id false premium = set_contest_status id lost

unfoldable pub settle_row : String → Bool → ℕ → Contest → ℕ → Exec Bank Unit
settle_row id is_won round c premium = do
  transaction restore (pay_out c id is_won premium)
  emit "contest_settled"
      (dict (
        ("contest_id", str id)
        ∷ ("agent", str c.agent)
        ∷ ("won", bool is_won)
        ∷ ("refund", number (if is_won then c.cost + premium else 0))
        ∷ ("burned", number (if is_won then 0 else c.cost))
        ∷ []))
      round

unfoldable pub settle : String → Bool → ℕ → Exec Bank Unit
settle id is_won round = do
  c ← open_row id
  premium ← gets (λ b. b.premium)
  settle_row id is_won round c premium

unfoldable pub void_contest : String → ℕ → Exec Bank Unit
void_contest id round = do
  c ← open_row id
  transaction restore (credit c.agent c.cost >> set_contest_status id void_)
  emit "contest_void"
      (dict (("contest_id", str id) ∷ ("agent", str c.agent) ∷ ("refund", number c.cost) ∷ []))
      round
