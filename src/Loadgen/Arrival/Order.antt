-- ===== src/Loadgen/Arrival/Order.antt =====
-- The order in which a Poisson trace's requests are sent.
use goodputlab.Prelude.{◌≡◌, refl, ap, List, [], ◌∷◌, ◌++◌, map, length}
use goodputlab.Core.Trace.{RequestSpec, Trace}
use goodputlab.Loadgen.Arrival.{
  PoissonArrival, sample_from, schedule, poisson_schedule, sample, yield_pair, arrival,
}
use goodputlab.Prelude.Float.{FloatOps}
use goodputlab.Prelude.Int.{ℤ, pos}
use goodputlab.Prelude.Result.{Result, ok, raise}

-- What is yielded is a beginning of the requests, and all of them unless the schedule raises.
pub record IsInOrder (specs : List RequestSpec) (p : List (RequestSpec × ℤ) × Result (Unit {0}))
    : Type 0 where
  pub rest : List RequestSpec
  pub split : map (λ e. e.0) p.0 ++ rest ≡ specs
  pub all_sent : p.1 ≡ ok tt → rest ≡ []

module _ (fl : FloatOps) {Random : Type 0} (expovariate : fl.F → Random → fl.F × Random) where
  -- One more pair in front.
  yield_pair-IsInOrder :
      (spec : RequestSpec) (t0 : ℤ) (r : Result ℤ) (specs : List RequestSpec)
      (p : List (RequestSpec × ℤ) × Result (Unit {0}))
      → IsInOrder specs p
      → IsInOrder (spec ∷ specs) (yield_pair fl expovariate (arrival fl expovariate spec t0 r) p)
  yield_pair-IsInOrder spec t0 (raise e) specs (pairs, end) below = record {
    rest = spec ∷ specs;
    split = refl;
    all_sent = λ h. cc;
  }
  yield_pair-IsInOrder spec t0 (ok n) specs (pairs, end) below = record {
    rest = below.rest;
    split = ap (λ s. spec ∷ s) below.split;
    all_sent = below.all_sent;
  }

  schedule-IsInOrder :
      (rate t : fl.F) (rng : Random) (t0 : ℤ) (specs : List RequestSpec)
      → IsInOrder specs (
          schedule fl expovariate t0 (sample_from fl expovariate rate t rng (length specs)).0 specs)
  unfolding schedule sample_from
  schedule-IsInOrder rate t rng t0 [] = record { rest = []; split = refl; all_sent = λ e. refl }
  schedule-IsInOrder rate t rng t0 (spec ∷ specs) =
      let next = fl.add t (expovariate rate rng).0 in
      let draw = expovariate rate rng in
      yield_pair-IsInOrder spec t0 (fl.truncate (fl.mul next (fl.of_int (pos 1000000000)))) specs
        (schedule fl expovariate t0 (sample_from fl expovariate rate next draw.1 (length specs)).0
          specs)
        (schedule-IsInOrder rate next draw.1 t0 specs)

  -- The schedule of a trace with Poisson arrivals sends the trace's requests in their order, each
  -- once: what it yields before it ends or raises is a beginning of them, and it ends only after
  -- the last.
  pub poisson_schedule-IsInOrder :
      (p : PoissonArrival fl expovariate) (t0 : ℤ) (trace : Trace fl)
      → IsInOrder trace.requests (poisson_schedule fl expovariate p t0 trace)
  unfolding poisson_schedule sample
  poisson_schedule-IsInOrder p t0 trace =
      schedule-IsInOrder p.rate (fl.of_int (pos 0)) p.rng t0 trace.requests
