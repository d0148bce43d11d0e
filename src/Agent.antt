-- ===== src/Agent.antt =====
-- The agent (agent/): what it collects, how it sends, and the log that buffers what it could not.
pub mod Config
pub mod Metrics
pub mod Wal
pub mod Convert
pub mod Sender
pub mod Cycle
pub mod Process
mod Tests
