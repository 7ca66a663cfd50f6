-- ===== src/Runs.antt =====
-- A run: one agent's change of a project, in a Git worktree of its own, from the snapshot to the
-- fast-forward of the default branch. scripts/hermesops-transaction.py begins, submits and rolls
-- back; hermesops-integrator.py integrates; hermesops-recovery.py repairs what was interrupted.
pub mod Tables
pub mod Transaction
pub mod Integrator
pub mod Assess
pub mod Recovery
pub mod Decisions
pub mod Resuming
pub mod Guards
pub mod Ungated
pub mod Integrating
pub mod Exclusive
pub mod Once
pub mod System
pub mod Safe
mod Examples
