-- ===== src/Notifier.antt =====
-- The notifications of scripts/hermesops-notifier.py: an outbox of migration 011, from which each
-- notification is claimed under a lease, delivered outside the database, and recorded.
pub mod Outbox
pub mod Sound
pub mod Keeps
pub mod Finish
pub mod System
mod Examples
