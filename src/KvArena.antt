-- ===== src/KvArena.antt =====
-- quail/backends/quail/executor/arena.py: the KV arena, less its tensors.
pub mod State
pub mod Holds
pub mod Evict
pub mod Admit
pub mod Activate
pub mod Resize
pub mod Policy
pub mod Sound
pub mod Freeing
pub mod Waiting
pub mod Evicting
pub mod Lending
pub mod Allocating
pub mod Admitting
pub mod Checkpoints
pub mod Stays
pub mod OtherKeys
pub mod Frame
pub mod Active
pub mod Ends
pub mod Borrowing
pub mod Tests
pub mod Run
