-- ===== src/Tools.antt =====
-- computer_use_demo/tools: what a tool returns, and the tools that act on files.
pub mod Base
pub mod Text
pub mod Edit
pub mod Computer
pub mod Bash
mod Samples
mod ComputerSamples
mod BashSamples
