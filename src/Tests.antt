-- ===== src/Tests.antt =====
-- The theorems at concrete inputs.
mod World
mod PollServer
mod OneToOneServer
mod ProcessServer
mod CoreLoop
mod Wire
mod ControllerRuns
mod ClientRuns
mod Interleaving
