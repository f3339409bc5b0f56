-- ===== src/Bench/Matrix.antt =====
-- The benchmark matrix: its cells, the store of their results, and the sweep over them.
pub mod Cells
pub mod Sweep
pub mod Metrics
pub mod Summary
pub mod Preflight
pub mod Aggregate
pub mod Config
