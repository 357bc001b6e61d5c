-- ===== src/Deadlock.antt =====
-- deadlock.py: the cycles of the wait-for graph, and the detector that runs once a round.
pub mod Cycles
pub mod Detector
mod Tests
