-- ===== src/ChainLog/Kept.antt =====
-- Properties of a log that every entry of a kind other than "ruling" keeps.
use tarmac.Prelude.{ℕ, String, ◌≡◌, false, Option, none, some}
use tarmac.Prelude.Text.{◌==◌}
use tarmac.Json.{Json}
use tarmac.ChainLog.{ChainLog, append}

pub record Keeps (Q : ChainLog → Type 0) : Type 0 where
  pub appends :
      (kind : String) (body : Json) (round : ℕ) (log : ChainLog)
      → (kind == "ruling") ≡ false
      → Q log
      → Q (append kind body round log).1

-- The property, of a log that is there.
abbrev pub OfLog : (ChainLog → Type 0) → Option ChainLog → Type 0
OfLog Q none = ⊥
OfLog Q (some log) = Q log
