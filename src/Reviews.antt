-- ===== src/Reviews.antt =====
-- The assignment of a reviewer to a run: scripts/hermesops_review_assignment.py over the tables and
-- triggers of migration 019. An assignment is ASSIGNED, then CLAIMED by an execution of the
-- reviewer, then COMPLETED or FAILED; a recovery fails what was left.
pub mod Tables
pub mod Checks
pub mod Assignments
pub mod Endings
pub mod Sound
pub mod Keeps
pub mod System
pub mod Recovering
pub mod Numbers
mod Examples
