-- ===== src/Society.antt =====
-- society.py: the round engine, over the ledger, the bank, the detector and one log that they
-- share. mediator.py: what agents and mediators see. Agents and mediators are the caller's.
pub mod Views
pub mod State
pub mod Phases
pub mod Mediation
pub mod Run
pub mod Steps
pub mod Safety
pub mod Citations
pub mod Quiescence
pub mod Recorded
mod Tests
