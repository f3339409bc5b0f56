-- ===== src/Core.antt =====
-- The shared data models (core/): traces, metrics and the reconciliation gate.
pub mod Trace
pub mod Reconcile
