-- ===== src/Controller.antt =====
-- client-controller/: it accepts the clients of a load test, sends them the test, and stops them.
pub mod State
pub mod Util
pub mod Connection
pub mod Setup
pub mod Handle
pub mod Writing
pub mod Sending
pub mod Accepting
pub mod Ports
pub mod Progress
pub mod Ending
pub mod Invariant
