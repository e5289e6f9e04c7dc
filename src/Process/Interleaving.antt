-- ===== src/Process/Interleaving.antt =====
-- process-server/: the runs of the parent and the children, interleaved in any order.
pub mod System
pub mod Counts
pub mod ChildMoves
pub mod Slots
pub mod ParentMoves
pub mod Invariant
pub mod Safety
pub mod Enabled
pub mod Progress
pub mod Work
pub mod FirstFree
pub mod Pollfds
pub mod Schedule
pub mod Calls
pub mod Receiving
pub mod ChildCalls
