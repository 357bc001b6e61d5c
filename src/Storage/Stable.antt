-- ===== src/Storage/Stable.antt =====
-- Invariants of methods: what a method keeps, whether it returns or raises, one rule for each way
-- to build a method.
use tarmac.Prelude.{◌≡◌, refl, Bool, true, false, Option, none, some, if◌then◌else◌}
use tarmac.Storage.{
  Error, Result, ok, err, Exec, pure, raise, lift, gets, expect, modify, raise_if, ◌>>=◌,
  transaction, rescue, LedgerFault, ledger_error, currency_error, integrity_violation,
  runtime_error, value_error, type_error, index_error, key_error, protocol_error, zero_division,
}

-- A state with `P` goes to a state with `P`.
pub record Stable {ℓ} {S A : Type ℓ} (P : S → Type ℓ) (method : Exec S A) : Type ℓ where
  pub after : (before : S) → P before → P (method before).1

module _ {ℓ} {S A : Type ℓ} {P : S → Type ℓ} where
  pub Stable-pure : (a : A) → Stable P (pure a)
  unfolding pure
  Stable-pure a = record { after = λ s h. h }

  pub Stable-raise : (e : Error) → Stable P (raise {A = A} e)
  unfolding raise
  Stable-raise e = record { after = λ s h. h }

  pub Stable-lift : (r : Result A) → Stable P (lift r)
  unfolding lift
  Stable-lift r = record { after = λ s h. h }

  pub Stable-gets : (f : S → A) → Stable P (gets f)
  unfolding gets
  Stable-gets f = record { after = λ s h. h }

  pub Stable-expect : (o : Option A) (e : Error) → Stable P (expect o e)
  unfolding expect raise pure
  Stable-expect none e = record { after = λ s h. h }
  Stable-expect (some a) e = record { after = λ s h. h }

  pub Stable-if :
      (b : Bool) {m n : Exec S A} → Stable P m → Stable P n → Stable P (if b then m else n)
  Stable-if true km kn = km
  Stable-if false km kn = kn

  -- The rollback puts back what the invariant reads.
  pub Stable-transaction :
      (restore : S → S → S) (m : Exec S A)
      → ((s s' : S) → P s → P s' → P (restore s s'))
      → Stable P m
      → Stable P (transaction restore m)
  unfolding transaction
  Stable-transaction restore m back km = record {
    after = λ s h. by_result s h (m s).0 (m s).1 (km.after s h);
  }
    where
      by_result :
          (s : S)
          → P s
          → (r : Result A) (s' : S) → P s'
          → P
              (elim r as (λ _. Result A × S) [
                | ok a ↦ (ok a, s')
                | err e ↦ (err e, restore s s')
              ]).1
      by_result s h (ok a) s' h' = h'
      by_result s h (err e) s' h' = back s s' h h'

module _ {ℓ} {S A B : Type ℓ} {P : S → Type ℓ} where
  pub Stable-bind :
      (m : Exec S A) (f : A → Exec S B)
      → Stable P m
      → ((a : A) → Stable P (f a))
      → Stable P (m >>= f)
  unfolding ◌>>=◌
  Stable-bind m f km kf = record { after = λ s h. by_result (m s).0 (m s).1 (km.after s h) }
    where
      by_result :
          (r : Result A) (s' : S)
          → P s'
          → P (elim r as (λ _. Result B × S) [ ok a ↦ f a s' | err e ↦ (err e, s') ]).1
      by_result (ok a) s' h = (kf a).after s' h
      by_result (err e) s' h = h

module _ {S A B : Type 0} {P : S → Type 0} where
  -- What follows a part may use what that part returned.
  pub Stable-bind_knowing :
      (m : Exec S A) (f : A → Exec S B)
      → Stable P m
      → ((a : A) (s : S) → (m s).0 ≡ ok a → Stable P (f a))
      → Stable P (m >>= f)
  unfolding ◌>>=◌
  Stable-bind_knowing m f km kf = record {
    after = λ s h. by_result s (m s).0 (m s).1 refl (km.after s h);
  }
    where
      by_result :
          (s : S) (r : Result A) (s' : S)
          → (m s).0 ≡ r
          → P s'
          → P (elim r as (λ _. Result B × S) [ ok a ↦ f a s' | err e ↦ (err e, s') ]).1
      by_result s (ok a) s' at h = (kf a s at).after s' h
      by_result s (err e) s' at h = h

module _ {S : Type 0} {P : S → Type 0} where
  pub Stable-modify : (f : S → S) → ((s : S) → P s → P (f s)) → Stable P (modify f)
  unfolding modify
  Stable-modify f kf = record { after = kf }

  pub Stable-raise_if : (b : Bool) (e : Error) → Stable P (raise_if {S = S} b e)
  unfolding raise_if raise pure
  Stable-raise_if true e = record { after = λ s h. h }
  Stable-raise_if false e = record { after = λ s h. h }

module _ {S A : Type 0} {P : S → Type 0} where
  -- The handler finds the state as the body left it.
  pub Stable-rescue :
      (m : Exec S A) (handler : LedgerFault → Exec S A)
      → Stable P m
      → ((f : LedgerFault) → Stable P (handler f))
      → Stable P (rescue m handler)
  unfolding rescue
  Stable-rescue m handler km kh = record { after = λ s h. by_result (m s).0 (m s).1 (km.after s h) }
    where
      by_result :
          (r : Result A) (s' : S)
          → P s'
          → P
              (elim r as (λ _. Result A × S) [
                | ok a ↦ (ok a, s')
                | err e ↦ elim e [ ledger_error fault ↦ handler fault s' | other ↦ (err other, s') ]
              ]).1
      by_result (ok a) s' h = h
      by_result (err (ledger_error f)) s' h = (kh f).after s' h
      by_result (err (currency_error f)) s' h = h
      by_result (err integrity_violation) s' h = h
      by_result (err runtime_error) s' h = h
      by_result (err value_error) s' h = h
      by_result (err type_error) s' h = h
      by_result (err index_error) s' h = h
      by_result (err key_error) s' h = h
      by_result (err protocol_error) s' h = h
      by_result (err zero_division) s' h = h

pub ruleset stable_rules = (
  Stable-pure, Stable-raise, Stable-lift, Stable-gets, Stable-expect, Stable-if, Stable-bind,
  Stable-raise_if, Stable-rescue,
)
