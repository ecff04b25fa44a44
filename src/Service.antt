-- ===== src/Service.antt =====
-- internal/service: the operations that the HTTP API and the agents' tools call.
pub mod Base
pub mod Transitions
pub mod Tasks
pub mod Runs
pub mod Requests
pub mod Await
pub mod Ownership
pub mod UserCalls
pub mod CancelSteps
pub mod UserSteps
pub mod Attempts
pub mod Settled
pub mod Replies
pub mod Accounts
pub mod Selection
pub mod Captures
