-- ===== src/Storage/Ensures.antt =====
-- What a method that returns gives: a rule for each way to build a method.
use tarmac.Prelude.{◌≡◌, sym, ◌∙◌, ap, subst, Bool, true, false, if◌then◌else◌}
use tarmac.Storage.{ok, Exec, ◌>>=◌}
use tarmac.Storage.Runs.{bind_returned}

-- Whenever the method returns, what it returns and the state after it are as `P` says.
pub record Ensures {S A : Type 0} (P : A → S → Type 0) (method : Exec S A) : Type 0 where
  pub returned : (s : S) (a : A) → (method s).0 ≡ ok a → P a (method s).1

module _ {S A B : Type 0} {P : B → S → Type 0} where
  -- The last part decides.
  pub Ensures-bind :
      (m : Exec S A) (f : A → Exec S B) → ((a : A) → Ensures P (f a)) → Ensures P (m >>= f)
  Ensures-bind m f kf = record {
    returned = λ s b done.
        let (a, part, run) = bind_returned m f s b done in
        subst (P b) (ap (λ r. r.1) (sym run))
          ((kf a).returned (m s).1 b (ap (λ r. r.0) (sym run) ∙ done));
  }

  -- The last part, from what the first gives.
  pub Ensures-bind_knowing :
      {Q : A → S → Type 0} (m : Exec S A) (f : A → Exec S B)
      → Ensures Q m
      → ((a : A) (s : S) (b : B) → Q a s → (f a s).0 ≡ ok b → P b (f a s).1)
      → Ensures P (m >>= f)
  Ensures-bind_knowing m f km kf = record {
    returned = λ s b done.
        let (a, part, run) = bind_returned m f s b done in
        subst (P b) (ap (λ r. r.1) (sym run))
          (kf a (m s).1 b (km.returned s a part) (ap (λ r. r.0) (sym run) ∙ done));
  }

module _ {S A : Type 0} {P : A → S → Type 0} where
  pub Ensures-if :
      (b : Bool) {m n : Exec S A} → Ensures P m → Ensures P n → Ensures P (if b then m else n)
  Ensures-if true km kn = km
  Ensures-if false km kn = kn
