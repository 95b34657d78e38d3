-- ===== src/Plan/Cycles.antt =====
-- src/agent/planning/dag.py: what Kahn's test of `_has_cycle` tells, proved on counts of ids.
pub mod Counting
pub mod Build
pub mod Keys
pub mod Invariant
pub mod Waits
pub mod Rank
pub mod Correct
