-- ===== src/Scheduler.antt =====
-- src/scheduler.c: who holds the GPU lock, who waits for it, and when it is taken back.
pub mod State
pub mod Sending
pub mod Clients
pub mod Schedule
pub mod Dispatch
pub mod Main
pub mod Lists
pub mod Invariant
pub mod Policy
pub mod Missed
pub mod Protocol
pub mod Refinement
pub mod Fairness
mod Tests
