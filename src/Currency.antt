-- ===== src/Currency.antt =====
-- currency.py: the credibility that agents stake on contests. A contest costs a stake at once; a
-- won contest returns it with a premium, a lost one burns it, a void one returns it.
pub mod Bank
pub mod Contests
pub mod Log
pub mod Reports
pub mod Calls
pub mod Settlement
pub mod Conservation
mod Tests
