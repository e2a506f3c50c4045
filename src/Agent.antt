-- ===== src/Agent.antt =====
-- The agent itself, agent/*.py.
pub mod Config
pub mod Scheduler
pub mod Lifecycle
pub mod Workers
pub mod Running
