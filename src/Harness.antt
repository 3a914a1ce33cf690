-- ===== src/Harness.antt =====
-- The agent harness, computer_use_demo/harness: one module for each file of the package.
pub mod Loop
pub mod Memory
pub mod Budgets
pub mod Grants
pub mod Contracts
pub mod Gates
pub mod Triggers
pub mod Traces
pub mod Session
pub mod Runner
pub mod Queue
pub mod Checkpoint
pub mod RunLoop
mod Samples
mod RunSamples
