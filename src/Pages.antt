-- ===== src/Pages.antt =====
-- quail/backends/quail/executor/pages.py: the page accounting of the KV arena.
pub mod Pool
pub mod Holding
pub mod Alloc
pub mod Growth
pub mod Release
pub mod Slots
pub mod Heap
pub mod Retention
pub mod Eviction
pub mod Tracking
pub mod Evicting
pub mod Victim
pub mod Resident
pub mod Arena
pub mod Attached
pub mod Sound
pub mod Configure
pub mod Run
pub mod RoundTrip
pub mod Borrow
pub mod Tests
