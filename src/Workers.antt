-- ===== src/Workers.antt =====
-- The workers that consume incident events (workers/).
pub mod Processor
pub mod Kept
pub mod Markers
pub mod Delivered
pub mod Runner
