-- ===== src/Examples.antt =====
-- Tests: one incident that the workflow of agent/workflow.py resolves in three steps, and each
-- property applied to concrete inputs.
mod Data
mod Runs
mod Failures
mod Answers
mod Tools
mod Service
mod Consumer
mod Chunks
mod Library
mod Search
mod Diagnosis
mod Intake
mod Grounded
mod Earlier
