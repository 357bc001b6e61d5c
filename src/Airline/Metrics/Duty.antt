-- ===== src/Airline/Metrics/Duty.antt =====
-- I2: the crew violations of a ledger, and the auditor's count of them from a log.
use tarmac.Prelude.{ℕ, ◌+◌, String, Bool, ◌&&◌, List, [], ◌∷◌, ltb, countb, if◌then◌else◌}
use tarmac.Prelude.Text.{◌==◌}
use tarmac.Ledger.Tables.{Allocation, Ledger}
use tarmac.Airline.Scenario.{Crew, Scenario}
use tarmac.Airline.Metrics.{exceeds_duty, is_crew_resource}

-- The duty that the last crew of a name has left, and `d` when there is none.
abbrev pub last_duty : String → ℕ → List Crew → ℕ
last_duty b d [] = d
last_duty b d (c ∷ cs) = last_duty b (if c.id == b then c.duty_remaining_min else d) cs

-- A seat at a crew resource whose holder has less duty left than a ferry's block and briefing take.
abbrev pub is_violation : Scenario → Allocation → Bool
is_violation sc a =
    is_crew_resource a.resource
    && ltb (last_duty a.beneficiary 0 sc.crews) (sc.block_min + sc.brief_min)

module _ (sc : Scenario) where
  -- The violations at one resource with these holders.
  abbrev at_resource : String → List (String × String) → ℕ
  at_resource r pairs =
      if is_crew_resource r then countb (λ pair. exceeds_duty sc pair.0) pairs else 0

  abbrev in_excess : Allocation → Bool
  in_excess a = is_crew_resource a.resource && exceeds_duty sc a.beneficiary

  -- The number of offenders at each entry of a manifest.
  abbrev offenders_at : String × List String → ℕ
  offenders_at (r, bs) = if is_crew_resource r then countb (exceeds_duty sc) bs else 0
