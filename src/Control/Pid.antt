-- ===== src/Control/Pid.antt =====
-- control/pid.py: the discrete PID controller with output clamping and anti-windup.
pub mod Clamp
use goodputlab.Prelude.{ℕ, ◌≡◌, refl, Bool, Option, none, some, if◌then◌else◌, ◌==◌}
use goodputlab.Prelude.Float.{FloatOps}
use goodputlab.Prelude.Int.{pos}
use goodputlab.Prelude.Result.{Result, ok, raise, value_error, raise_if, ◌>>=◌, ◌>>◌}

module _ (fl : FloatOps) where
  open fl use {F, of_int, add, sub, mul, div, lt, le}

  abbrev pub zero_float : F
  zero_float = of_int (pos 0)

  pub record PidGains : Type 0 where
    pub kp : F
    pub ki : F
    pub kd : F

  pub record PidController : Type 0 where
    pub gains : PidGains
    pub out_min : F
    pub out_max : F
    pub integral : F
    pub prev_error : Option F

  -- `PidController.__init__`
  unfoldable pub init : PidGains → F → F → Result PidController
  init gains output_min output_max = do
    raise_if (le output_max output_min) value_error
    ok (record {
      gains = gains;
      out_min = output_min;
      out_max = output_max;
      integral = zero_float;
      prev_error = none;
    })

  unfoldable pub reset : PidController → PidController
  reset c = record c { integral = zero_float; prev_error = none }

  -- The derivative term: 0.0 as long as there is no previous error.
  unfoldable pub derivative : PidController → F → F → F
  derivative c error dt = elim c.prev_error [
    | none ↦ zero_float
    | some prev ↦ div (mul c.gains.kd (sub error prev)) dt
  ]

  -- `kp + ki + kd`, each term with its gain.
  unfoldable pub unclamped : PidController → F → F → F
  unfolding derivative
  unclamped c error dt =
      add (add (mul c.gains.kp error) (mul c.gains.ki (add c.integral (mul error dt))))
        (derivative c error dt)

  -- The saturation: the output, and the integral after the step.
  unfoldable pub saturate : PidController → F → F → F → F × F
  saturate c u error dt =
      if lt c.out_max u
      then (c.out_max, c.integral)
      else if lt u c.out_min
      then (c.out_min, c.integral)
      else (u, add c.integral (mul error dt))

  unfoldable pub update : PidController → F → F → Result (PidController × F)
  unfolding unclamped saturate
  update c error dt = do
    raise_if (le dt zero_float) value_error
    let (output, integral) = saturate c (unclamped c error dt) error dt
    ok (record c { integral = integral; prev_error = some error }, output)
