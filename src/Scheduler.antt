-- ===== src/Scheduler.antt =====
-- internal/scheduler: the daemon's scheduler, which keeps the usage reading, the running tasks and
-- the rate limit, and turns the plans of the scheduling policy into runs.
pub mod State
pub mod Plan
pub mod Reconcile
pub mod Poll
pub mod Control
pub mod Backoff
pub mod Orphans
pub mod Frames
pub mod Flights
pub mod Limits
pub mod Life
pub mod Manual
