-- ===== src/Simulation.antt =====
-- The simulation of incidents, simulation/scenarios.py and simulation/runner.py.
pub mod Streams
pub mod Scenarios
pub mod Runner
pub mod Annotation
pub mod Workspace
