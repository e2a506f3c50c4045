-- ===== src/Diagnostics/EventAnalyzer.antt =====
-- diagnostics/event_analyzer.py: the category of an event and the summary of a list of events.
pub mod Category
pub mod Classify
pub mod Summary
pub mod Counts
pub mod Ids
pub mod Evidence
