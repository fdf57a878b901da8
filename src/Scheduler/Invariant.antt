-- ===== src/Scheduler/Invariant.antt =====
-- What holds of the scheduler's lists between two events, and that every operation keeps it.
mod Defs
mod Clients
mod Broadcast
mod Register
mod Schedule
mod Settled
mod Handlers
mod Events
mod Timer
mod Tests
pub use Defs.*
pub use Clients.*
pub use Broadcast.*
pub use Register.*
pub use Schedule.*
pub use Settled.*
pub use Handlers.*
pub use Events.*
pub use Timer.*
