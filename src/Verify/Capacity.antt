-- ===== src/Verify/Capacity.antt =====
-- What the capacity check of I1 means.
use tarmac.Prelude.{
  ℕ, String, ◌≡◌, refl, subst, false, Option, none, some, List, [], ◌∷◌, length, findb, ◌≤◌, arith,
  inl, inr, Bool-cases,
}
use tarmac.Prelude.Int.{ℤ, pos, negsuc}
use tarmac.Prelude.Text.{◌==◌}
use tarmac.Verify.Checks.{Terms, over_capacity, exceeds, terms_of}

-- A number of holders that a registered capacity allows; without a registration, none.
abbrev pub Fits : ℕ → Option Terms → Type 0
Fits n none = n ≡ 0
Fits n (some t) = (c : ℕ) × (t.capacity ≡ pos c) × (n ≤ c)

pub Fits-exceeds : (n : ℕ) (t : Option Terms) → exceeds n t ≡ false → Fits n t
Fits-exceeds n none h = ground arith
Fits-exceeds n (some t) h = fits t.capacity refl
  where
    fits : (c : ℤ) → t.capacity ≡ c → (c : ℕ) × (t.capacity ≡ pos c) × (n ≤ c)
    fits (pos c) at = (c, at, ground arith)
    fits (negsuc c) at = absurd (ground arith)

pub over_capacity-Fits :
    (terms : List Terms) (m : List (String × List String)) (r : String)
    (entry : String × List String)
    → over_capacity terms m ≡ []
    → findb (λ x. x.0 == r) m ≡ some entry
    → exceeds (length entry.1) (terms_of r terms) ≡ false
unfolding over_capacity
over_capacity-Fits terms [] r entry h found = absurd (ground arith)
over_capacity-Fits terms (e ∷ m) r entry h found =
    elim (Bool-cases (exceeds (length e.1) (terms_of e.0 terms))) [
      | inl over ↦ absurd (ground (arith, over, h))
      | inr allowed ↦ elim (Bool-cases (e.0 == r)) [
        | inl here ↦
            let named : e.0 ≡ r = ground (arith, here) in
            let same : e ≡ entry = ground (arith, here, found) in
            subst (λ x. exceeds (length x.1) (terms_of r terms) ≡ false) same
              (subst (λ x. exceeds (length e.1) (terms_of x terms) ≡ false) named allowed)
        | inr later ↦
            over_capacity-Fits terms m r entry (ground (arith, h, allowed))
              (ground (arith, found, later))
      ]
    ]
