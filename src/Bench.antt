-- ===== src/Bench.antt =====
-- bench/: the KV-scaling study and the benchmark matrix.
pub mod KvScaling
pub mod Matrix
pub mod Orchestrator
