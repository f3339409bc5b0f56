-- ===== src/Scripts.antt =====
-- scripts/: the proxy in front of the prefill and the decode pool.
pub mod Proxy
pub mod RunMatrix
pub mod AutoscalerLive
