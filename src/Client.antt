-- ===== src/Client.antt =====
-- client/: one client of a load test, driven by a controller or on its own.
pub mod State
pub mod Util
pub mod Log
pub mod Worker
pub mod Thread
pub mod Pool
pub mod Setup
pub mod Receiving
pub mod Message
pub mod Protocol
pub mod Exchanging
pub mod Run
