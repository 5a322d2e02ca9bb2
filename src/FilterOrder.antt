-- ===== src/FilterOrder.antt =====
-- quail/planner/search/filter_order.py: the order of a table's predicates.
pub mod Choose
pub mod Permutes
pub mod Least
pub mod Tests
