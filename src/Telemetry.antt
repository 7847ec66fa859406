-- ===== src/Telemetry.antt =====
-- The telemetry path: the three workers, and the orchestrator that drives a signal through them.
pub mod Workers
pub mod Pipeline
pub mod Meaning
pub mod Publisher
