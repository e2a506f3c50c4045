-- ===== src/Storage.antt =====
-- The storage layer, storage/*.py: the tables, the operations on them, and what they keep.
pub mod Connection
pub mod Rows
pub mod Schema
pub mod Tables
pub mod Metrics
pub mod Events
pub mod Sessions
pub mod Incidents
pub mod State
pub mod Valid
pub mod Retention
