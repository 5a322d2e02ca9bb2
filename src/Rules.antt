-- ===== src/Rules.antt =====
-- quail/planner/rules/tree_transforms.py: the rewrites of a logical plan.
pub mod Nodes
pub mod PushDown
pub mod Meaning
pub mod Pairs
pub mod Placing
pub mod Keeps
pub mod Settled
pub mod Once
pub mod Tests
