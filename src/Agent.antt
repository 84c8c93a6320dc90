-- ===== src/Agent.antt =====
-- The controlled agent (app/agent): its models, its exceptions, its environment, and the parts of
-- `ControlledAgentWorkflow`.
pub mod Models
pub mod Failure
pub mod Env
pub mod Sanitization
pub mod Tables
pub mod Claim
pub mod Failing
pub mod Evidence
pub mod Steps
pub mod Tools
pub mod Validation
pub mod Final
pub mod Planning
pub mod Acting
pub mod Audit
pub mod Loop
