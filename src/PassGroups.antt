-- ===== src/PassGroups.antt =====
-- quail/cost/packing.py: the pass groups of a set-attention chain.
pub mod Choose
pub mod Scan
pub mod Splits
pub mod Rounds
pub mod Labels
pub mod Least
pub mod Tests
