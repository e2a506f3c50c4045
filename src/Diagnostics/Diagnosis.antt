-- ===== src/Diagnostics/Diagnosis.antt =====
-- diagnostics/diagnosis.py: the rule-based engine.
pub mod Drift
pub mod Queries
pub mod Findings
pub mod Evidence
pub mod Engine
pub mod Restart
pub mod Latest
