-- ===== src/Control/Pool.antt =====
-- control/pool.py: the roles of a pool and the snapshot that the router keeps of each.
use goodputlab.Prelude.{ℕ, Bool, if◌then◌else◌, leb}
use goodputlab.Prelude.Float.{FloatOps}
use goodputlab.Prelude.Int.{pos}
use goodputlab.Prelude.Text.{Text, codes}

pub data Pool : Type 0 where
  prefill decode colocated tier : Pool

unfoldable pub pool_discrete : Discrete Pool
pool_discrete = Pool.discrete_by_fields

-- `pool.value`
abbrev pub value : Pool → Text
value prefill = codes "prefill"
value decode = codes "decode"
value colocated = codes "colocated"
value tier = codes "tier"

-- The fields are validated on construction: `queue_depth` is not negative, `capacity` is positive.
pub record PoolState : Type 0 where
  pub pool : Pool
  pub queue_depth : ℕ
  pub capacity : ℕ
  pub healthy : Bool

module _ (fl : FloatOps) where
  open fl use {F, of_int, true_div, mul}

  unfoldable pub headroom_used_pct : PoolState → F
  headroom_used_pct s =
      if leb s.capacity 0
      then of_int (pos 100)
      else mul (true_div (pos s.queue_depth) (pos s.capacity)) (of_int (pos 100))
