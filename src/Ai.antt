-- ===== src/Ai.antt =====
-- The grounded resolution of incidents without an agent (ai/).
pub mod Resolution
pub mod Workflow
