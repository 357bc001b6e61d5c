-- ===== src/Ledger.antt =====
-- ledger.py: revocable claims on resources of bounded capacity. `Tables` has the SQL tables with
-- their constraints, `Queries` the reads, `Allocate` the all-or-nothing allocation and its reverse,
-- `Methods` the operations of an agent and `Ruling` those of a mediator.
pub mod Tables
pub mod Queries
pub mod Faults
pub mod Allocate
pub mod Log
pub mod Methods
pub mod Ruling
pub mod Calls
pub mod Frames
pub mod Constraints
pub mod Safety
mod Tests
