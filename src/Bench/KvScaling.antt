-- ===== src/Bench/KvScaling.antt =====
-- bench/kv_scaling/: the theory of bytes per token and the sampler of the block accounting.
pub mod Theory
pub mod Engine
pub mod Window
pub mod Fake
pub mod Cells
pub mod Fit
