-- ===== src/Runtime.antt =====
-- The contract between the control plane and an agent runtime: the delivery of a request's events,
-- scripts/agent_runtime/contract.py.
pub mod Dispatcher
pub mod Order
mod Examples
