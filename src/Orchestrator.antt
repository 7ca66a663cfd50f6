-- ===== src/Orchestrator.antt =====
-- scripts/hermesops-orchestrator.py: the scheduler of the tasks, over the control-plane database.
pub mod Tables
pub mod Dag
pub mod Gates
pub mod Refresh
pub mod Reserve
pub mod Finish
pub mod Objectives
pub mod Dispatch
pub mod System
mod Examples
pub mod Invariant
