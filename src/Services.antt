-- ===== src/Services.antt =====
-- Intake: the classification of incidents and their storage (services/, repositories/incidents.py).
pub mod Patterns
pub mod Analyzer
pub mod Incidents
