-- ===== src/Placement.antt =====
-- quail/logical/placement.py: where the parts of a query's conditions run.
pub mod Place
pub mod Keeps
pub mod Tests
