-- ===== src/Storage.antt =====
-- storage.py: a method is a state transformer that may raise, and a write transaction puts the
-- tables back when its body raises. What a method wrote before a raise outside a transaction
-- stays written. The connection, its locks and the nesting counter are not modelled: one method
-- runs at a time, and no method of the protocol opens a transaction inside another.
pub mod Ensures
pub mod Stable
pub mod Runs
use tarmac.Prelude.{ℕ, String, Bool, true, false, Option, none, some}
use tarmac.Schemas.{ClaimStatus}

-- The faults that a LedgerError reports, with the values that its message shows.
pub data LedgerFault : Type 0 where
  negative_capacity agent_mismatch : LedgerFault
  already_registered unknown_resource unknown_commitment already_revealed : String → LedgerFault
  unknown_claim : String → LedgerFault
  cannot_release cannot_revoke cannot_grant cannot_withdraw : String → ClaimStatus → LedgerFault
  not_owner not_withdrawer : String → String → String → LedgerFault
  no_allocation : String → String → String → LedgerFault
  grant_violates : String → String → LedgerFault

pub data CurrencyFault : Type 0 where
  bad_prices not_blocking : CurrencyFault
  negative_budget unknown_agent unknown_contest already_settled : String → CurrencyFault

-- The exceptions that reach a caller.
pub data Error : Type 0 where
  ledger_error : LedgerFault → Error
  currency_error : CurrencyFault → Error
  integrity_violation runtime_error value_error type_error index_error key_error : Error
  protocol_error zero_division : Error

pub data Result {ℓ} (A : Type ℓ) : Type ℓ where
  ok : A → Result A
  err : Error → Result A

abbrev pub Exec {ℓ} : Type ℓ → Type ℓ → Type ℓ
Exec S A = S → Result A × S

module _ {ℓ} {S A : Type ℓ} where
  unfoldable pub pure : A → Exec S A
  pure a s = (ok a, s)

  unfoldable pub raise : Error → Exec S A
  raise e s = (err e, s)

  unfoldable pub lift : Result A → Exec S A
  lift r s = (r, s)

  unfoldable pub gets : (S → A) → Exec S A
  gets f s = (ok (f s), s)

  -- An optional value, or the exception that its absence raises.
  unfoldable pub expect : Option A → Error → Exec S A
  expect none e = raise e
  expect (some a) e = pure a

unfoldable pub modify : {S : Type 0} → (S → S) → Exec S Unit
modify f s = (ok tt, f s)

unfoldable pub raise_if : {S : Type 0} → Bool → Error → Exec S Unit
raise_if true e = raise e
raise_if false e = pure tt

-- `with storage.transaction(): body`, where `restore before after` has the tables of `before`
-- and the rest of `after`.
unfoldable pub transaction {ℓ} : {S A : Type ℓ} → (S → S → S) → Exec S A → Exec S A
transaction restore body s =
    let (r, s') = body s in elim r [ ok a ↦ (ok a, s') | err e ↦ (err e, restore s s') ]

infixl 5 ◌>>=◌ ◌>>◌
-- To open this opens every other way to build a method.
unfoldable pub ◌>>=◌ {ℓ} : {S A B : Type ℓ} → Exec S A → (A → Exec S B) → Exec S B
unfolding pure raise lift gets expect modify raise_if transaction
◌>>=◌ m f s = let (r, s') = m s in elim r [ ok a ↦ f a s' | err e ↦ (err e, s') ]

abbrev pub ◌>>◌ {ℓ} : {S A B : Type ℓ} → Exec S A → Exec S B → Exec S B
m >> k = m >>= λ _. k

-- `try: body` with `except LedgerError as exc`.
unfoldable pub rescue : {S A : Type 0} → Exec S A → (LedgerFault → Exec S A) → Exec S A
rescue body handler s =
    let (r, s') = body s in
    elim r [
      | ok a ↦ (ok a, s')
      | err e ↦ elim e [ ledger_error fault ↦ handler fault s' | other ↦ (err other, s') ]
    ]
