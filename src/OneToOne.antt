-- ===== src/OneToOne.antt =====
-- one-to-one/: one process that serves one client at a time.
pub mod State
pub mod Message
pub mod Serve
pub mod Setup
pub mod Exchange
pub mod Lifecycle
