-- ===== src/Airline.antt =====
-- tarmac/scenario.py and tarmac/metrics.py: the storm's scenario and the numbers that are computed of
-- a run. A scenario is a record where the source has a dict with those keys.
pub mod Scenario
pub mod Metrics
pub mod Resources
pub mod Baseline
mod Tests
