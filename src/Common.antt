-- ===== src/Common.antt =====
-- What the parts of the agent share, common/*.py.
pub mod Paths
pub mod SystemInfo
