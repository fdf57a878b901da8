-- ===== src/Client.antt =====
-- src/client.c: the part of nvshare that runs inside a CUDA application.
pub mod State
pub mod Start
pub mod Locking
pub mod Listening
pub mod EarlyRelease
pub mod Invariant
pub mod Registering
pub mod Policy
pub mod Idling
pub mod Gate
mod Tests
