-- ===== src/Currency/Reports.antt =====
-- Balance snapshots and the summary of each agent's spending.
use tarmac.Prelude.{
  ℕ, ◌+◌, String, Bool, not, ◌&&◌, List, [], ◌∷◌, ◌++◌, map, filterb, eqb, if◌then◌else◌,
}
use tarmac.Prelude.Text.{◌==◌, text_leb, sort_by}
use tarmac.Storage.{Exec, modify}
use tarmac.Currency.Bank.{
  Bank, Account, Contest, SpendPoint, ContestStatus, open_, won, lost, void_,
}

account_leb : Account → Account → Bool
account_leb x y = text_leb x.agent y.agent

unfoldable pub sorted_balances : Bank → List Account
unfolding account_leb
sorted_balances b = sort_by account_leb b.balances

abbrev pub at_point : ℕ → String → SpendPoint → Bool
at_point round a p = eqb p.round round && (p.agent == a)

-- INSERT OR REPLACE INTO spend_curve
unfoldable pub replace_point : ℕ → Account → List SpendPoint → List SpendPoint
replace_point round x curve =
    filterb (λ p. not (at_point round x.agent p)) curve
    ++ record { round = round; agent = x.agent; balance = x.balance } ∷ []

unfoldable pub replace_all : ℕ → List Account → List SpendPoint → List SpendPoint
replace_all round [] curve = curve
replace_all round (x ∷ xs) curve = replace_all round xs (replace_point round x curve)

unfoldable pub snapshot : ℕ → Exec Bank Unit
snapshot round =
    modify (λ b. record b { spend_curve = replace_all round (sorted_balances b) b.spend_curve })

pub record Spending : Type 0 where
  pub staked : ℕ
  pub refunded : ℕ
  pub premium : ℕ
  pub burned : ℕ
  pub balance : ℕ

-- What a contest adds to its agent's line.
unfoldable pub add_by_status : ContestStatus → ℕ → ℕ → Spending → Spending
add_by_status won cost premium s = record s {
  staked = s.staked + cost;
  refunded = s.refunded + cost;
  premium = s.premium + premium;
}
add_by_status lost cost premium s = record s { staked = s.staked + cost; burned = s.burned + cost }
add_by_status void_ cost premium s = record s {
  staked = s.staked + cost;
  refunded = s.refunded + cost;
}
add_by_status open_ cost premium s = record s { staked = s.staked + cost }

abbrev pub no_spending : ℕ → Spending
no_spending v = record { staked = 0; refunded = 0; premium = 0; burned = 0; balance = v }

-- out.setdefault(agent, ...), then the additions.
unfoldable pub add_to_summary : ℕ → Contest → List (String × Spending) → List (String × Spending)
add_to_summary premium c [] = (c.agent, add_by_status c.status c.cost premium (no_spending 0)) ∷ []
add_to_summary premium c ((a, s) ∷ rest) =
    if a == c.agent
    then (a, add_by_status c.status c.cost premium s) ∷ rest
    else (a, s) ∷ add_to_summary premium c rest

unfoldable pub summary_from : ℕ → List (String × Spending) → List Contest → List (String × Spending)
summary_from premium out [] = out
summary_from premium out (c ∷ cs) = summary_from premium (add_to_summary premium c out) cs

unfoldable pub spend_summary : Bank → List (String × Spending)
spend_summary b =
    summary_from b.premium (map (λ x. (x.agent, no_spending x.balance)) (sorted_balances b))
      b.contests

unfoldable pub total_by : (Spending → ℕ) → List (String × Spending) → ℕ
total_by part [] = 0
total_by part ((a, s) ∷ rest) = part s + total_by part rest

-- total_spend and total_staked
unfoldable pub total_spend : Bank → ℕ
total_spend b = total_by (λ s. s.burned) (spend_summary b)

unfoldable pub total_staked : Bank → ℕ
total_staked b = total_by (λ s. s.staked) (spend_summary b)
