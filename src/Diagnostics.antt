-- ===== src/Diagnostics.antt =====
-- The diagnostic engine, diagnostics/*.py.
pub mod EventAnalyzer
pub mod CrashDetector
pub mod HangDetector
pub mod BootDetector
pub mod Diagnosis
