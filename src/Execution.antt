-- ===== src/Execution.antt =====
-- The execution engine, packages/hermes/src/execution.
pub mod Types
pub mod State
pub mod Policy
pub mod Retry
pub mod History
pub mod Checkpoint
pub mod Context
pub mod Events
pub mod Loop
mod Tests
