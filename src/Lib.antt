-- ===== src/Lib.antt =====
-- A verification library for tarmac_society, the protocol by which agents with opposed aims share
-- resources of bounded capacity: sealed and revocable claims, stakes on contested claims, binding
-- rulings, and a hash-chained log of every change that an auditor replays.
--
-- Parts of the program, and the files that model them (paths under src/tarmac_society unless they
-- are given in full; Python's `_name` is written `name`, an exception is an `Error` value):
--
--   canonical.py    Canonical (canonical_json, hash_obj), Sha256 (hashlib's sha256, computed);
--                   Canonical/Bytes and Sha256/Digest hold the proofs
--   storage.py      Storage (exceptions, transactions with rollback), Storage/Stable,
--                   Storage/Ensures and Storage/Runs (rules for proofs about methods)
--   schemas.py      Schemas (ClaimStatus, ClaimProposal, ClaimRecord, Position, RulingOp),
--                   Schemas/Rulings (Ruling, SignedRuling, and what model_dump makes of them)
--   commitment.py   Commitment (commitment_digest, verify_commitment, Commitment);
--                   Commitment/Sealing holds the proofs
--   chainlog.py     ChainLog (append, genesis, reopening, verify_chain); ChainLog/Accepts and
--                   ChainLog/TamperEvidence hold the proofs
--   ledger.py       Ledger/Tables (SCHEMA: tables, keys, unique index, trigger), Ledger/Queries
--                   (reads, ids, manifest), Ledger/Allocate (_try_allocate, _deallocate, _emit,
--                   _set_status), Ledger/Methods (register_resource, commit, reveal, submit_plain,
--                   release, withdraw_claim, void_claim), Ledger/Ruling (apply_ruling_ops),
--                   Ledger/Faults (the texts of LedgerError), Ledger/Calls (a client's calls in
--                   sequence); Ledger/Frames, Ledger/Constraints, Ledger/Log and Ledger/Safety hold
--                   the proofs
--   currency.py     Currency/Bank (tables, constructor, balance, can_contest), Currency/Contests
--                   (open_contest, settle, void_contest), Currency/Reports (snapshot,
--                   spend_summary), Currency/Calls; Currency/Conservation, Currency/Log and
--                   Currency/Settlement hold the proofs
--   deadlock.py     Deadlock/Cycles (find_cycles), Deadlock/Detector (DeadlockDetector.scan, and
--                   ClaimLedger.holder_agents); Deadlock/Cycles/Termination and
--                   Deadlock/Detector/Reports hold the proofs
--   verify.py       Verify/Replay (replay_manifest), Verify/Checks (I1), Verify/Reveals (I3, I4),
--                   Verify (VerifyReport, verify_log); Verify/Replay/Lookup,
--                   Verify/Replay/Meaning, Verify/Capacity, Verify/Steps and Verify/Soundness
--                   hold the proofs
--   signing.py      Signing (sign_body, verify_body, key pairs); Signing/RoundTrip holds the proofs,
--                   Signing/OneKey an Ed25519 for the tests
--   mediator.py     Society/Views (AgentView, MediatorView, Agent, Mediator)
--   society.py      Society/State (the fields, the views, the calls of the parts), Society/Phases
--                   (_phase_commit_reveal, _phase_positions, _process_position),
--                   Society/Mediation (_sign_and_apply_ruling, _settle_contests), Society/Run (run,
--                   _finalize_unquiesced); Society/Steps goes through a run once for all proofs,
--                   Society/Safety and Society/Citations use it,
--                   Society/Quiescence and Society/Recorded are about what it returns
--
--   qwen/citations.py
--                   RegLibrary (Passage, RegLibrary.get and resolver)
--   tarmac/scenario.py, tarmac/metrics.py
--                   Airline/Scenario, Airline/Metrics; Airline/Metrics/Returns,
--                   Airline/Metrics/Totals and Airline/Metrics/Duty hold the proofs
--   tarmac/run.py   Airline/Resources (register_resources)
--   tarmac/baseline.py
--                   Airline/Baseline (run_single_planner); Airline/Baseline/Choice holds the proofs
--
-- A society calls the ledger, the bank and the detector, and all but the detector write to one log,
-- which is a field of the society and is lent to the ledger and the bank for each call.
-- Alone, the ledger and the bank write to a log when they have one; the auditor reads nothing but the
-- log's entries. Prelude, Prelude/Text, Prelude/Int and Json are the shared types and lemmas.
--
-- How the state is kept. A method is a function from a state to a result and a state (`Exec`), so
-- what a method wrote before it raised is in the state that it leaves. A transaction puts the
-- tables back when its body raises, and keeps the object's counters. A table is a list of rows in
-- the order of insertion; a constraint of the SCHEMA is a test in the function that inserts. A
-- dict is a list of pairs in the order of insertion. A set is a list, and its duplicates are
-- dropped when a name is added or where the set is sorted.
--
-- Numbers and texts. Counts, rounds and sequence numbers are natural numbers, a constructor's
-- arguments that may be negative are integers. A text is a sequence of code points with Python's
-- order. SHA-256 works on 32-bit words with the wrap-around written out. The loop over `work` in find_cycles is the one loop on fuel, two turns for each node of the graph:
-- a turn pushes a node that has no index yet, which the next turn gives one, or pops a node. Every
-- other loop goes over a list.
--
-- What is given from outside. The nonce that make_nonce draws is an argument, or in a society a
-- sequence. Ed25519 is a record of PyNaCl's operations, with its documented laws as a hypothesis
-- where they matter. The citation resolver, Python's repr of a text and the scenario are arguments.
-- An agent and a mediator are functions of the view they are given, in which the round is, and they
-- return values that their constructors accept. The view has the signed rulings where the source has
-- their JSON. The auditor's domain checks are an argument. No collision resistance is assumed: where
-- it matters, a theorem says which two inputs would collide.
--
-- Not modelled: the SQLite connection, its locks and threads (one method runs at a time); floats
-- in JSON; the texts of details and messages, except where they reach the log; an agent or a
-- mediator that raises; the retrieval of passages and the percentage of the metrics, which are
-- floats; a scenario without one of its keys; the scenario's generator (tarmac/seed.py), the texts of
-- the regulations (tarmac/regs.py), the personas (tarmac/personas.py), the drivers (tarmac/run.py but
-- for register_resources, tarmac/bench.py), the model transport (qwen/transport.py) and the command
-- line (cli.py).
pub mod Prelude
pub mod Json
pub mod Sha256
pub mod Canonical
pub mod Storage
pub mod Schemas
pub mod Commitment
pub mod ChainLog
pub mod Ledger
pub mod Currency
pub mod Verify
pub mod Deadlock
pub mod Signing
pub mod Society
pub mod RegLibrary
pub mod Airline
