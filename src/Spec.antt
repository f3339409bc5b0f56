-- ===== src/Spec.antt =====
-- Speculative decoding (spec/).
pub mod Eagle
