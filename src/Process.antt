-- ===== src/Process.antt =====
-- process-server/: a parent that polls the clients and passes each ready one to a child process.
pub mod State
pub mod Parent
pub mod Child
pub mod Setup
pub mod Teardown
pub mod Disable
pub mod Lifecycle
pub mod Invariant
pub mod Safety
pub mod Ending
pub mod ChildEnding
pub mod Closing
pub mod Interleaving
