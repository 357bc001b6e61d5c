-- ===== src/Society/Safety.antt =====
-- What a run keeps: the ledger's constraints, the bank's books, and what the log keeps.
use tarmac.Prelude.{ℕ, suc, ◌-◌, ◌≤◌, String, ◌≡◌, sym, subst, Option, none, some, List, [], arith}
use tarmac.Json.{Json}
use tarmac.Storage.{Exec, Result, ok, err}
use tarmac.Storage.Stable.{Stable, Stable-modify}
use tarmac.ChainLog.{ChainLog, LogEntry, append, chain_ok, verify_chain, verify_from}
use tarmac.ChainLog.Kept.{Keeps, OfLog}
use tarmac.ChainLog.Accepts.{IsChained, IsChained-append, verify_chain_of_from}
use tarmac.Schemas.Rulings.{SignedRuling, signed_json}
use tarmac.Ledger.Tables.{Ledger, Resource}
use tarmac.Ledger.Constraints.{IsConsistent, Consistent}
use tarmac.Ledger.Constraints.Steps.{Within}
use tarmac.Ledger.Constraints.Operations.{
  seal_and_commit-Stable, reveal-Stable, release-Stable, withdraw_claim-Stable, void_claim-Stable,
  apply_ruling_ops-Stable, claim-Stable,
}
use tarmac.Ledger.Log.{claim-Logged}
use tarmac.Ledger.Log.Operations.{
  seal_and_commit-Logged, reveal-Logged, release-Logged, withdraw_claim-Logged, void_claim-Logged,
  apply_ruling_ops-Logged,
}
use tarmac.Ledger.Safety.{kept}
use tarmac.Currency.Bank.{Bank}
use tarmac.Currency.Reports.{snapshot}
use tarmac.Currency.Conservation.{Balanced, IsBalanced}
use tarmac.Currency.Conservation.Operations.{
  open_contest-Balanced, settle-Balanced, void_contest-Balanced,
}
use tarmac.Currency.Conservation.Books.{opening, opening-Balanced}
use tarmac.Currency.Log.{open_contest-Logged, settle-Logged, void_contest-Logged, snapshot-Logged}
use tarmac.Society.State.{Setup, Society, shared_log, on_ledger, on_bank, keep_entry, append_log}
use tarmac.Society.Run.{run}
use tarmac.Society.Steps.{Rules}
use tarmac.Society.Steps.Run.{Obeys, run-Stable}

module _ (Q : ChainLog → Type 0) (keeps : Keeps Q) where
  shared_log-keeps :
      (log : ChainLog) (o : Option ChainLog) → Q log → OfLog Q o → Q (shared_log log o)
  shared_log-keeps log none h k = absurd k
  shared_log-keeps log (some after) h k = k

  module _ (budget : String → ℕ) (premium : ℕ) where
    abbrev pub Sound : Society → Type 0
    Sound s = Consistent s.ledger × Balanced budget premium s.bank × Q s.log

    on_ledger-Sound :
        {A : Type 0} (m : Exec Ledger A)
        → ((rs : List Resource) → Stable (Within rs) m)
        → Stable (λ l. OfLog Q l.log) m
        → Stable Sound (on_ledger m)
    unfolding on_ledger
    on_ledger-Sound m within logged = record {
      after = λ s (consistent, balanced, log).
          let before : Ledger = record s.ledger { log = some s.log } in
          (
            kept m before (within before.resources) consistent,
            balanced,
            shared_log-keeps s.log (m before).1.log log (logged.after before log),
          );
    }

    on_bank-Sound :
        {A : Type 0} (m : Exec Bank A)
        → Stable (Balanced budget premium) m
        → Stable (λ b. OfLog Q b.log) m
        → Stable Sound (on_bank m)
    unfolding on_bank
    on_bank-Sound m balances logged = record {
      after = λ s (consistent, balanced, log).
          let before : Bank = record s.bank { log = some s.log } in
          (
            consistent,
            balances.after before balanced,
            shared_log-keeps s.log (m before).1.log log (logged.after before log),
          );
    }

    snapshot-Balanced : (round : ℕ) → Stable (Balanced budget premium) (snapshot round)
    unfolding snapshot
    snapshot-Balanced round = Stable-modify _ (λ b h. h)

    append_log-Sound :
        (kind : String) (body : Json) (round : ℕ)
        → ((log : ChainLog) → Q log → Q (append kind body round log).1)
        → Stable Sound (append_log kind body round)
    unfolding append_log keep_entry
    append_log-Sound kind body round adds = record {
      after = λ s (consistent, balanced, log).
          by_result s (append kind body round s.log) (consistent, balanced, adds s.log log);
    }
      where
        by_result :
            (s : Society) (r : Result LogEntry × ChainLog)
            → Consistent s.ledger × Balanced budget premium s.bank × Q r.1
            → Sound (keep_entry s r).1
        by_result s (ok entry, log) h = h
        by_result s (err e, log) h = h

    module _ (Allowed : SignedRuling → Type 0)
        (adds : (signed : SignedRuling) (log : ChainLog)
          → Allowed signed
          → Q log
          → Q (append "ruling" (signed_json signed) signed.round log).1) where
      every_call : Rules Allowed Sound
      every_call = record {
        seals = λ p nonce round.
            on_ledger-Sound _ (λ rs. seal_and_commit-Stable rs p nonce round)
              (seal_and_commit-Logged Q keeps p nonce round);
        reveals = λ id p nonce round.
            on_ledger-Sound _ (λ rs. reveal-Stable rs id p nonce round)
              (reveal-Logged Q keeps id p nonce round);
        releases = λ a c bs round.
            on_ledger-Sound _ (λ rs. release-Stable rs a c bs round)
              (release-Logged Q keeps a c bs round);
        withdraws = λ a c round.
            on_ledger-Sound _ (λ rs. withdraw_claim-Stable rs a c round)
              (withdraw_claim-Logged Q keeps a c round);
        voids = λ c reason round.
            on_ledger-Sound _ (λ rs. void_claim-Stable rs c reason round)
              (void_claim-Logged Q keeps c reason round);
        applies = λ ops id round.
            on_ledger-Sound _ (λ rs. apply_ruling_ops-Stable rs ops id round)
              (apply_ruling_ops-Logged Q keeps ops id round);
        reads = λ c. on_ledger-Sound _ (λ rs. claim-Stable rs c) (claim-Logged Q keeps c);
        contests = λ p round.
            on_bank-Sound _ (open_contest-Balanced budget premium p round)
              (open_contest-Logged Q keeps p round);
        settles = λ id is_won round.
            on_bank-Sound _ (settle-Balanced budget premium id is_won round)
              (settle-Logged Q keeps id is_won round);
        refunds = λ id round.
            on_bank-Sound _ (void_contest-Balanced budget premium id round)
              (void_contest-Logged Q keeps id round);
        snapshots =
            λ round. on_bank-Sound _ (snapshot-Balanced round) (snapshot-Logged Q keeps round);
        notes = λ kind body round other.
            append_log-Sound kind body round (λ log h. keeps.appends kind body round log other h);
        records =
            λ signed may. append_log-Sound "ruling" _ signed.round (λ log h. adds signed log may h);
        own_fields = λ s d n m k ps ds rs h. h;
      }

      pub run-Sound :
          (setup : Setup) → Obeys setup Allowed → (s : Society) → Sound s → Sound (run setup s).1
      run-Sound setup obeys s h = (run-Stable Allowed Sound every_call setup obeys).after s h

-- A log that passes, with an entry in it.
abbrev pub Grown : ChainLog → Type 0
Grown log = IsChained log × (1 ≤ log.length)

pub Grown-append :
    (kind : String) (body : Json) (round : ℕ) (log : ChainLog)
    → Grown log
    → Grown (append kind body round log).1
Grown-append kind body round log (chained, some_entry) =
    (IsChained-append kind body round log chained, unfold append in ground (arith, some_entry))

pub Grown-Keeps : Keeps Grown
Grown-Keeps = record { appends = λ kind body round log other h. Grown-append kind body round log h }

-- The mediator may rule as it likes.
abbrev Anything : SignedRuling → Type 0
Anything signed = Unit

obeys_nothing : (setup : Setup) → Obeys setup Anything
obeys_nothing setup = record {
  adjudicates = λ m d ps view at. record {
    plain = λ none_given id round. tt;
    resolved = λ f cited given h left id round. tt;
  };
  decrees = λ m view at. record {
    plain = λ none_given id round. tt;
    resolved = λ f cited given h left id round. tt;
  };
}

pub verify_chain-Grown :
    (log : ChainLog) → Grown log → verify_chain log.rows ≡ chain_ok log.length log.head
verify_chain-Grown log (chained, some_entry) =
    let same : log.length ≡ suc (log.length - 1) = omega (arith, some_entry) in
    subst (λ n. verify_chain log.rows ≡ chain_ok n log.head) (sym same)
      (verify_chain_of_from log.rows (log.length - 1) log.head
        (subst (λ n. verify_from "" 0 log.rows ≡ chain_ok n log.head) same chained.passes))

-- A run of any agents and any mediator, on a ledger that meets its constraints, a bank without
-- contests and a log that passes, whether the run returns or raises: it leaves a ledger that meets
-- its constraints, a bank whose books balance, and a log that verify_chain accepts.
pub run-IsSafe :
    (setup : Setup) (s : Society)
    → Consistent s.ledger
    → s.bank.contests ≡ []
    → Grown s.log
    → let t = (run setup s).1 in
      IsConsistent t.ledger.resources t.ledger.allocations
      × IsBalanced (opening s.bank) s.bank.premium t.bank.balances t.bank.contests
      × (verify_chain t.log.rows ≡ chain_ok t.log.length t.log.head)
run-IsSafe setup s consistent no_contests log =
    let (consistent', (_, balanced), log') =
      run-Sound Grown Grown-Keeps (opening s.bank) s.bank.premium Anything
        (λ signed log may h. Grown-append "ruling" (signed_json signed) signed.round log h) setup
        (obeys_nothing setup) s (consistent, opening-Balanced s.bank no_contests, log) in
    (consistent', balanced, verify_chain-Grown _ log')
