-- ===== src/Search.antt =====
-- quail/cost/work.py and quail/planner/search/leftdeep.py: work records, the frontier of the
-- records that the search keeps for a state.
pub mod Work
pub mod Frontier
pub mod Kept
pub mod Joins
pub mod Levels
pub mod Complete
pub mod Tests
