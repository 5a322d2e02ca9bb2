-- ===== src/Server.antt =====
-- quail/server and quail/remote/records.py: the saved query records, and the scheduler that runs
-- them.
pub mod Json
pub mod Records
pub mod Store
pub mod Lifecycle
pub mod Moves
pub mod Steps
pub mod Recovery
pub mod Distinct
pub mod Legal
pub mod History
pub mod Frozen
pub mod Submit
pub mod Stale
pub mod Oldest
pub mod Scheduler
pub mod Polling
pub mod Begun
pub mod Turns
pub mod Liveness
pub mod Stops
pub mod Closing
pub mod Tests
