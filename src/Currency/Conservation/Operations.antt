-- ===== src/Currency/Conservation/Operations.antt =====
-- Every operation on contests keeps the books balanced, whether it returns or raises.
use tarmac.Prelude.{
  ℕ, String, ◌≡◌, refl, sym, ◌∙◌, subst, Bool, true, false, Option, none, some, [], ◌∷◌, ◌++◌,
  arith, inl, inr, Option-cases, Bool-cases, findb, updateb,
}
use tarmac.Prelude.Text.{◌==◌}
use tarmac.Json.{Json}
use tarmac.Schemas.{Position}
use tarmac.Storage.Runs.{bind_ok, bind_err, transaction_ok, transaction_err}
use tarmac.Storage.{integrity_violation, Exec, Result, ok, err, ◌>>=◌, ◌>>◌, transaction}
use tarmac.Storage.Stable.{Stable, stable_rules}
use tarmac.Currency.Bank.{
  Account, Contest, ContestStatus, open_, won, lost, void_, Bank, restore, contest_in, emit,
  balance, can_contest, credit, charge, insert_contest, debited, overdrawn,
}
use tarmac.Currency.Contests.{
  stake, open_new, decline, open_or_reuse, open_contest, set_contest_status, open_row, pay_out,
  settle, void_contest, settle_row, next_contest_id, is_open,
}
use tarmac.Currency.Conservation.{
  Balanced, emit-Balanced, staked-IsBalanced, settled-IsBalanced, burned-IsBalanced,
}

module _ (budget : String → ℕ) (premium : ℕ) where
  charge-fits :
      (a : String) (n : ℕ) (b : Bank)
      → findb (overdrawn a n) b.balances ≡ none
      → charge a n b
        ≡ (ok tt, record b { balances = updateb (λ x. x.agent == a) (debited n) b.balances })
  unfolding charge
  charge-fits a n b fits = rw fits refl

  charge-refused :
      (a : String) (n : ℕ) (b : Bank) (x : Account)
      → findb (overdrawn a n) b.balances ≡ some x
      → charge a n b ≡ (err integrity_violation, b)
  unfolding charge
  charge-refused a n b x over = rw over refl

  insert_contest-fresh :
      (c : Contest) (b : Bank)
      → contest_in c.id b.contests ≡ none
      → insert_contest c b ≡ (ok tt, record b { contests = b.contests ++ c ∷ [] })
  unfolding insert_contest
  insert_contest-fresh c b fresh = rw fresh refl

  insert_contest-known :
      (c d : Contest) (b : Bank)
      → contest_in c.id b.contests ≡ some d
      → insert_contest c b ≡ (err integrity_violation, b)
  unfolding insert_contest
  insert_contest-known c d b known = rw known refl

  stake-Balanced :
      (id : String) (p : Position) (cost round : ℕ)
      → Stable (Balanced budget premium) (transaction restore (stake id p cost round))
  unfolding stake
  stake-Balanced id p cost round = record {
    after = λ b h. elim (Option-cases (findb (overdrawn p.agent cost) b.balances)) [
      | inr (x, over) ↦
          rw
            (transaction_err restore (stake id p cost round) b b integrity_violation
              (bind_err _ _ b b _ (charge-refused p.agent cost b x over)))
            h
      | inl fits ↦ elim (Option-cases (contest_in id b.contests)) [
        | inr (c, known) ↦
            rw
              (transaction_err restore (stake id p cost round) b _ integrity_violation (
                bind_ok _ _ b _ _ (charge-fits p.agent cost b fits)
                ∙ (insert_contest-known _ c _ known)))
              h
        | inl fresh ↦
            rw
              (transaction_ok restore (stake id p cost round) b _ tt (
                bind_ok _ _ b _ _ (charge-fits p.agent cost b fits)
                ∙ (insert_contest-fresh _ _ fresh)))
              (h.0, staked-IsBalanced budget premium _ b.balances b.contests refl fits fresh h.1)
      ]
    ];
  }

  next_contest_id-Balanced : Stable (Balanced budget premium) next_contest_id
  unfolding next_contest_id
  next_contest_id-Balanced = record { after = λ b h. h }

  open_new-Balanced :
      (p : Position) (round : ℕ) → Stable (Balanced budget premium) (open_new p round)
  unfolding open_new
  open_new-Balanced p round =
      search (stable_rules, next_contest_id-Balanced, stake-Balanced, emit-Balanced) depth 10

  decline-Balanced : (p : Position) (round : ℕ) → Stable (Balanced budget premium) (decline p round)
  unfolding decline
  decline-Balanced p round = search (stable_rules, emit-Balanced) depth 10

  open_or_reuse-Balanced :
      (dup : Option Contest) (p : Position) (round : ℕ)
      → Stable (Balanced budget premium) (open_or_reuse dup p round)
  unfolding open_or_reuse
  open_or_reuse-Balanced none p round = open_new-Balanced p round
  open_or_reuse-Balanced (some c) p round = search stable_rules

  can_contest-Balanced : (a : String) → Stable (Balanced budget premium) (can_contest a)
  unfolding can_contest balance
  can_contest-Balanced a = search stable_rules depth 10

  pub open_contest-Balanced :
      (p : Position) (round : ℕ) → Stable (Balanced budget premium) (open_contest p round)
  unfolding open_contest
  open_contest-Balanced p round =
      search (stable_rules, can_contest-Balanced, open_or_reuse-Balanced, decline-Balanced) depth 12

  -- The row that open_row returns is the row of that id, and it is open.
  unfoldable OpenRow : String → Bank → Result Contest × Bank → Type 0
  OpenRow id b (ok c, after) =
      (after ≡ b) × (contest_in id b.contests ≡ some c) × (c.status ≡ open_)
  OpenRow id b (err e, after) = after ≡ b

  is_open_only : (s : ContestStatus) → is_open s ≡ true → s ≡ open_
  is_open_only open_ e = refl
  is_open_only won e = absurd (ground arith)
  is_open_only lost e = absurd (ground arith)
  is_open_only void_ e = absurd (ground arith)

  open_row-OpenRow : (id : String) (b : Bank) → OpenRow id b (open_row id b)
  unfolding open_row ◌>>=◌ OpenRow
  open_row-OpenRow id b = elim (Option-cases (contest_in id b.contests)) [
    | inl missing ↦ rw missing refl
    | inr (c, there) ↦ elim (Bool-cases (is_open c.status)) [
      | inl still ↦ rw (there, still) (refl, there, is_open_only c.status still)
      | inr closed ↦ rw (there, closed) refl
    ]
  ]

  pay_out-Balanced :
      (id : String) (c : Contest) (is_won : Bool) (b : Bank)
      → contest_in id b.contests ≡ some c
      → c.status ≡ open_
      → Balanced budget premium b
      → Balanced budget premium (transaction restore (pay_out c id is_won premium) b).1
  unfolding pay_out set_contest_status credit ◌>>=◌
  pay_out-Balanced id c true b row was_open h =
      (h.0, settled-IsBalanced budget premium id c won b.balances b.contests row was_open h.1)
  pay_out-Balanced id c false b row was_open h =
      (h.0, burned-IsBalanced budget premium id c b.balances b.contests row was_open h.1)

  return_stake-Balanced :
      (id : String) (c : Contest) (b : Bank)
      → contest_in id b.contests ≡ some c
      → c.status ≡ open_
      → Balanced budget premium b
      → Balanced budget premium
          (transaction restore (credit c.agent c.cost >> set_contest_status id void_) b).1
  unfolding set_contest_status credit ◌>>=◌
  return_stake-Balanced id c b row was_open h =
      (h.0, settled-IsBalanced budget premium id c void_ b.balances b.contests row was_open h.1)

  -- What follows open_row keeps the books, when it does so on the open row.
  after_open_row :
      (id : String) (f : Contest → Exec Bank Unit)
      → ((c : Contest) (b : Bank)
          → contest_in id b.contests ≡ some c
          → c.status ≡ open_
          → Balanced budget premium b
          → Balanced budget premium (f c b).1)
      → Stable (Balanced budget premium) (open_row id >>= f)
  unfolding ◌>>=◌ OpenRow
  after_open_row id f kf = record {
    after = λ b h. by_result b h (open_row id b).0 (open_row id b).1 (open_row-OpenRow id b);
  }
    where
      by_result :
          (b : Bank)
          → Balanced budget premium b
          → (r : Result Contest) (b' : Bank) → OpenRow id b (r, b')
          → Balanced budget premium
              (elim r as (λ _. Result (Unit {0}) × Bank) [ ok c ↦ f c b' | err e ↦ (err e, b') ]).1
      by_result b h (ok c) b' (same, row, was_open) =
          kf c b' (subst (λ x. contest_in id x.contests ≡ some c) (sym same) row) was_open
            (subst (Balanced budget premium) (sym same) h)
      by_result b h (err e) b' same = subst (Balanced budget premium) (sym same) h

  -- An event after a step changes no table.
  then_emit :
      (m : Exec Bank Unit) (kind : String) (body : Json) (round : ℕ) (b : Bank)
      → Balanced budget premium (m b).1
      → Balanced budget premium ((m >> emit kind body round) b).1
  unfolding ◌>>=◌
  then_emit m kind body round b h = by_result (m b).0 (m b).1 h
    where
      by_result :
          (r : Result (Unit {0})) (b' : Bank)
          → Balanced budget premium b'
          → Balanced budget premium
              (elim r as (λ _. Result (Unit {0}) × Bank) [
                | ok c ↦ emit kind body round b'
                | err e ↦ (err e, b')
              ]).1
      by_result (ok c) b' h' = (emit-Balanced budget premium kind body round).after b' h'
      by_result (err e) b' h' = h'

  pub void_contest-Balanced :
      (id : String) (round : ℕ) → Stable (Balanced budget premium) (void_contest id round)
  unfolding void_contest
  void_contest-Balanced id round =
      after_open_row id _ (λ c b row was_open h.
        then_emit _ _ _ round b (return_stake-Balanced id c b row was_open h))

  settle_row-Balanced :
      (id : String) (c : Contest) (is_won : Bool) (round : ℕ) (b : Bank)
      → contest_in id b.contests ≡ some c
      → c.status ≡ open_
      → Balanced budget premium b
      → Balanced budget premium (settle_row id is_won round c premium b).1
  unfolding settle_row
  settle_row-Balanced id c is_won round b row was_open h =
      then_emit _ _ _ round b (pay_out-Balanced id c is_won b row was_open h)

  pub settle-Balanced :
      (id : String) (is_won : Bool) (round : ℕ)
      → Stable (Balanced budget premium) (settle id is_won round)
  unfolding settle ◌>>=◌
  settle-Balanced id is_won round =
      after_open_row id (λ c b. settle_row id is_won round c b.premium b)
        (λ c b row was_open h.
          subst (λ p. Balanced budget premium (settle_row id is_won round c p b).1) (sym h.0)
            (settle_row-Balanced id c is_won round b row was_open h))
