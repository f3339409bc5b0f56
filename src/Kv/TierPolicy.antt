-- ===== src/Kv/TierPolicy.antt =====
-- kv/tier_policy.py: whether a request should go through the KV tier.
use goodputlab.Prelude.{◌≡◌, ◌↔◌, Bool, true, false, not, Option, none, some, if◌then◌else◌, arith}
use goodputlab.Prelude.Float.{FloatOps}
use goodputlab.Kv.Lmcache.{KvStats, capacity_free_pct}

pub data RejectReason : Type 0 where
  tier_full tier_cold workload_low_hit_prob : RejectReason

module _ (fl : FloatOps) where
  open fl use {F, lt}

  pub record TierPolicy : Type 0 where
    pub min_hit_rate : F
    pub min_capacity_free_pct : F

  unfoldable pub should_use_tier : TierPolicy → KvStats fl → F → Bool
  should_use_tier p stats expected_hit_prob =
      if lt (capacity_free_pct fl stats) p.min_capacity_free_pct
      then false
      else if lt stats.hit_rate p.min_hit_rate
      then false
      else not (lt expected_hit_prob p.min_hit_rate)

  unfoldable pub reject_reason : TierPolicy → KvStats fl → F → Option RejectReason
  reject_reason p stats expected_hit_prob =
      if lt (capacity_free_pct fl stats) p.min_capacity_free_pct
      then some tier_full
      else if lt stats.hit_rate p.min_hit_rate
      then some tier_cold
      else if lt expected_hit_prob p.min_hit_rate
      then some workload_low_hit_prob
      else none

  -- A request is admitted exactly when there is no reason to reject it.
  should_use_tier-reject_reason :
      (p : TierPolicy) (stats : KvStats fl) (expected_hit_prob : F)
      → (should_use_tier p stats expected_hit_prob ≡ true)
        ↔ (reject_reason p stats expected_hit_prob ≡ none)
  unfolding should_use_tier reject_reason
  should_use_tier-reject_reason p stats expected_hit_prob = ground arith
