-- ===== src/Core.antt =====
-- core/: the framework that loads a server library and drives it; api_functions.h is what they share.
pub mod Api
pub mod Run
pub mod Lifecycle
