-- ===== src/Scheduler/Refinement.antt =====
-- The handlers of src/scheduler.c take no steps but those of the protocol.
pub mod Moves
pub mod Schedule
pub mod Broadcast
pub mod Register
pub mod Handlers
pub mod Events
pub mod Timer
pub mod Asking
pub use Moves.*
pub use Schedule.*
pub use Handlers.*
pub use Events.*
pub use Timer.*
pub use Asking.*
