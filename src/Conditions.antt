-- ===== src/Conditions.antt =====
-- quail/logical/expressions.py: conditions over column tests, their three-valued meaning, and the
-- normal form in which they are placed.
pub mod Syntax
pub mod Kleene
pub mod Negation
pub mod Normal
pub mod Form
pub mod Fuel
pub mod Meaning
pub mod Tests
