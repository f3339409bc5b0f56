-- ===== src/Loadgen/Arrival.antt =====
-- loadgen/arrival.py: `PoissonArrival`, and the schedule of a trace with its arrivals. The random
-- generator's state and its `expovariate` are parameters. The scheduler is the generator of its
-- pairs: what it yields, and whether it ends or raises. The on-off process is left out.
pub mod Order
use goodputlab.Prelude.{ℕ, zero, suc, true, List, [], ◌∷◌, if◌then◌else◌, length}
use goodputlab.Core.Trace.{RequestSpec, Trace}
use goodputlab.Prelude.Float.{FloatOps}
use goodputlab.Prelude.Int.{ℤ, pos, ◌+ℤ◌}
use goodputlab.Prelude.Result.{Result, ok, raise, value_error}

module _ (fl : FloatOps) {Random : Type 0} (expovariate : fl.F → Random → fl.F × Random) where
  open fl use {F, of_int, add, mul, le, truncate}

  pub record PoissonArrival : Type 0 where
    pub rate : F
    pub rng : Random

  -- `PoissonArrival.__init__`, of a generator that is seeded.
  unfoldable pub init : F → Random → Result PoissonArrival
  init rate rng =
      if le rate (of_int (pos 0)) then raise value_error else ok (record { rate = rate; rng = rng })

  -- The draws from the time `t` on.
  unfoldable pub sample_from : F → F → Random → ℕ → List F × Random
  sample_from rate t rng zero = ([], rng)
  sample_from rate t rng (suc n) =
      let (gap, next) = expovariate rate rng in
      let (offsets, last) = sample_from rate (add t gap) next n in (add t gap ∷ offsets, last)

  -- `PoissonArrival.sample`
  unfoldable pub sample : PoissonArrival → ℕ → List F × PoissonArrival
  unfolding sample_from
  sample p n =
      let (offsets, rng) = sample_from p.rate (of_int (pos 0)) p.rng n in
      (offsets, record p { rng = rng })

  -- The pair at the front, unless `int` raises, and those that follow it.
  abbrev pub yield_pair :
      {A : Type 0} → Result A → List A × Result (Unit {0}) → List A × Result (Unit {0})
  yield_pair (raise e) rest = ([], raise e)
  yield_pair (ok a) (pairs, end) = (a ∷ pairs, end)

  abbrev pub arrival : RequestSpec → ℤ → Result ℤ → Result (RequestSpec × ℤ)
  arrival spec t0 (raise e) = raise e
  arrival spec t0 (ok n) = ok (spec, t0 +ℤ n)

  -- `OpenLoopScheduler.__iter__`, from the clock's reading on.
  unfoldable pub schedule :
      ℤ → List F → List RequestSpec → List (RequestSpec × ℤ) × Result (Unit {0})
  schedule t0 [] specs = ([], ok tt)
  schedule t0 (offset ∷ offsets) [] = ([], ok tt)
  schedule t0 (offset ∷ offsets) (spec ∷ specs) =
      yield_pair (arrival spec t0 (truncate (mul offset (of_int (pos 1000000000)))))
        (schedule t0 offsets specs)

  -- The schedule of a trace with Poisson arrivals.
  unfoldable pub poisson_schedule :
      PoissonArrival → ℤ → Trace fl → List (RequestSpec × ℤ) × Result (Unit {0})
  unfolding schedule sample
  poisson_schedule p t0 trace = schedule t0 (sample p (length trace.requests)).0 trace.requests
