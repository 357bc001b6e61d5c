-- ===== src/Storage/Runs.antt =====
-- Runs of methods: what a composed method does, from what its parts do.
use tarmac.Prelude.{◌≡◌, ◌∙◌, refl, sym, ap, arith}
use tarmac.Storage.{Error, Result, ok, err, Exec, ◌>>=◌, transaction}

module _ {ℓ} {S A B : Type ℓ} where
  pub bind_ok :
      (m : Exec S A) (f : A → Exec S B) (s s' : S) (a : A) → m s ≡ (ok a, s') → (m >>= f) s ≡ f a s'
  unfolding ◌>>=◌
  bind_ok m f s s' a run =
      ap (λ p. elim p.0 as (λ _. Result B × S) [ ok x ↦ f x p.1 | err e ↦ (err e, p.1) ]) run

  pub bind_err :
      (m : Exec S A) (f : A → Exec S B) (s s' : S) (e : Error)
      → m s ≡ (err e, s')
      → (m >>= f) s ≡ (err e, s')
  unfolding ◌>>=◌
  bind_err m f s s' e run =
      ap (λ p. elim p.0 as (λ _. Result B × S) [ ok x ↦ f x p.1 | err e ↦ (err e, p.1) ]) run

module _ {ℓ} {S A : Type ℓ} (restore : S → S → S) (m : Exec S A) (s s' : S) where
  pub transaction_ok : (a : A) → m s ≡ (ok a, s') → transaction restore m s ≡ (ok a, s')
  unfolding transaction
  transaction_ok a run =
      ap
        (λ p. elim p.0 as (λ _. Result A × S) [
          | ok x ↦ (ok x, p.1)
          | err e ↦ (err e, restore s p.1)
        ])
        run

  pub transaction_err :
      (e : Error) → m s ≡ (err e, s') → transaction restore m s ≡ (err e, restore s s')
  unfolding transaction
  transaction_err e run =
      ap
        (λ p. elim p.0 as (λ _. Result A × S) [
          | ok x ↦ (ok x, p.1)
          | err e ↦ (err e, restore s p.1)
        ])
        run

module _ {S A B : Type 0} where
  -- A composed method that returns: its first part returned, and it is the second part's run.
  pub bind_returned :
      (m : Exec S A) (f : A → Exec S B) (s : S) (b : B)
      → ((m >>= f) s).0 ≡ ok b
      → (a : A) × ((m s).0 ≡ ok a) × ((m >>= f) s ≡ f a (m s).1)
  unfolding ◌>>=◌
  bind_returned m f s b done = by_result (m s) refl done
    where
      by_result :
          (p : Result A × S)
          → m s ≡ p
          → (elim p.0 as (λ _. Result B × S) [ ok a ↦ f a p.1 | err e ↦ (err e, p.1) ]).0 ≡ ok b
          → (a : A) × ((m s).0 ≡ ok a) × ((m >>= f) s ≡ f a (m s).1)
      by_result (ok a, t) run done =
          (a, ap (λ q. q.0) run, bind_ok m f s t a run ∙ ap (λ q. f a q.1) (sym run))
      by_result (err e, t) run done = absurd (ground arith)

-- A method that raises does not return.
pub raised_or_returned :
    {S A : Type 0} (e : Error) (p : Result A × S) (s : S) (a : A) → p ≡ (err e, s) → p.0 ≡ ok a → ⊥
raised_or_returned e p s a raised done = ground (arith, ap (λ q. q.0) raised)
