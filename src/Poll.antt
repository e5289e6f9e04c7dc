-- ===== src/Poll.antt =====
-- poll-server/: one process that polls its listening socket and at most five clients.
pub mod State
pub mod Receive
pub mod Loop
pub mod Setup
pub mod Index
pub mod Invariant
pub mod Safety
pub mod Messages
pub mod Lifecycle
pub mod Memory
pub mod Progress
pub mod Ending
