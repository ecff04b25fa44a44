-- ===== src/Runner.antt =====
-- internal/runner: a run from its launch to the status that its task is left with.
pub mod State
pub mod Recovery
pub mod Results
pub mod PrUrl
pub mod Classify
pub mod Outcome
pub mod Frames
pub mod Settled
pub mod Replies
pub mod Continue
pub mod Budget
pub mod Preflight
pub mod Cap
pub mod Workspace
pub mod Launch
pub mod Started
pub mod Effort
