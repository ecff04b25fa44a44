-- ===== src/Scheduling.antt =====
-- internal/scheduling: the pure scheduling policy. Its types, the global gate, `Decide` and the
-- detector of session resets; the proofs are in the modules below.
pub mod Types
pub mod Gate
pub mod Decide
pub mod Reset
pub mod Capacity
pub mod Verdicts
pub mod Explain
pub mod Sessions
pub mod Interruption
