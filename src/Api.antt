-- ===== src/Api.antt =====
-- The orchestrator's API, computer_use_demo/api.
pub mod Db
pub mod Artifacts
pub mod Retention
pub mod Sse
pub mod Server
mod Samples
mod StreamSamples
mod UiSamples
