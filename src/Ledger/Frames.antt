-- ===== src/Ledger/Frames.antt =====
-- What the events of the log leave alone: every table and counter.
use tarmac.Prelude.{ℕ, String, ◌≡◌, Option, arith}
use tarmac.Json.{Json}
use tarmac.ChainLog.{ChainLog}
use tarmac.Ledger.Tables.{Ledger}
use tarmac.Ledger.Allocate.{emit}

abbrev pub with_log : Ledger → Option ChainLog → Ledger
with_log l log = record l { log = log }

pub emit_frame :
    (kind : String) (body : Json) (round : ℕ) (l : Ledger)
    → (emit kind body round l).1 ≡ with_log l (emit kind body round l).1.log
unfolding emit
emit_frame kind body round l = ground arith
