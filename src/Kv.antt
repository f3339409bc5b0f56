-- ===== src/Kv.antt =====
-- The KV tier (kv/): the in-memory tier client and the admission policy for the tier.
pub mod Lmcache
pub mod TierPolicy
