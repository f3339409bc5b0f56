-- ===== src/Bench/KvScaling/Fake/Calls.antt =====
-- The block accounting of the fake engine over any calls.
use goodputlab.Prelude.{
  ℕ, ◌≡◌, refl, sym, subst, Bool, true, false, Option, List, [], ◌∷◌, arith, inl, inr, Bool-cases,
  Option-cases, ◌==◌,
}
use goodputlab.Bench.KvScaling.Fake.{
  FakeEngineDriver, is_zero, init, used_by, sync_pool, add_request, returning, step, abort_request,
  end_sample,
}
use goodputlab.Prelude.Dict
use goodputlab.Prelude.Result.{Result, ok, raise, Ensures, Ensures-then, of_Ensures, ◌>>=◌}
use goodputlab.Prelude.Text.{Text, text_discrete}
use goodputlab.Bench.KvScaling.Fake.Requests.{
  IsWithin, IsValid, Returns, decode_all-IsWithin, fresh-IsWithin, All-set, freed-IsWithin,
  free_all-IsWithin, sync_pool-IsValid,
}

-- The calls on a driver.
pub data Call : Type 0 where
  add : Text → Text → ℕ → ℕ → Bool → Call
  tick : Call
  abort : Text → Call
  close : Call

forget : {A : Type 0} → FakeEngineDriver × Result A → Result FakeEngineDriver
forget (d, ok _) = ok d
forget (d, raise e) = raise e

unfoldable pub perform : Call → FakeEngineDriver → Result FakeEngineDriver
unfolding forget
perform (add rid prompt n l i) d = forget (add_request rid prompt n l i d)
perform tick d = forget (step d)
perform (abort rid) d = forget (abort_request rid d)
perform close d = forget (end_sample d)

-- A run stops at the first call that raises.
unfoldable pub run : List Call → FakeEngineDriver → Result FakeEngineDriver
unfolding perform
run [] d = ok d
run (c ∷ calls) d = perform c d >>= run calls

returning-Kept :
    {A : Type 0} (a : A) (x : FakeEngineDriver × Result (Unit {0}))
    → Returns x
    → Ensures IsValid (forget (returning a x))
unfolding forget
returning-Kept a (d, ok _) h = h
returning-Kept a (d, raise e) h = tt

forget-Kept : (x : FakeEngineDriver × Result (Unit {0})) → Returns x → Ensures IsValid (forget x)
unfolding forget
forget-Kept (d, ok _) h = h
forget-Kept (d, raise e) h = tt

add_request-Returns :
    (rid prompt : Text) (n l : ℕ) (i : Bool) (d : FakeEngineDriver)
    → IsValid d
    → Returns (add_request rid prompt n l i d)
unfolding add_request
add_request-Returns rid prompt n l i d v =
    elim (Bool-cases (Dict.contains text_discrete rid d.requests)) [
      | inl e ↦ rw (e, Returns) tt
      | inr e ↦ elim (Bool-cases (n == 0)) [
        | inl f ↦ rw (e, f, Returns) tt
        | inr f ↦ elim (Bool-cases (l == 0)) [
          | inl g ↦ rw (e, f, g, Returns) tt
          | inr g ↦
              rw (e, f, g)
                (sync_pool-IsValid _ (
                  v.eos_positive,
                  All-set (IsWithin d.eos_after) rid _ d.requests
                      (fresh-IsWithin d.eos_after n l i v.eos_positive (ground arith)) v.within,
                ))
        ]
      ]
    ]

abort_request-Returns :
    (rid : Text) (d : FakeEngineDriver) → IsValid d → Returns (abort_request rid d)
unfolding abort_request
abort_request-Returns rid d v = elim (Option-cases (Dict.lookup text_discrete rid d.requests)) [
  | inl e ↦ rw (e, Returns) tt
  | inr (q, e) ↦
      let there : abort_request rid d
          ≡ sync_pool (record d {
            requests = Dict.set text_discrete rid (record q { freed = true }) d.requests;
          }) =
        rw (e, abort_request) refl in
      subst Returns (sym there) (
        sync_pool-IsValid _ (
          v.eos_positive,
          All-set (IsWithin d.eos_after) rid _ d.requests
              (freed-IsWithin d.eos_after q (
                Dict.All-lookup text_discrete (λ x. IsWithin d.eos_after x.1) rid q d.requests
                  v.within e))
              v.within,
        ))
]

perform-IsValid : (c : Call) (d : FakeEngineDriver) → IsValid d → Ensures IsValid (perform c d)
unfolding perform step end_sample
perform-IsValid (add rid prompt n l i) d v =
    forget-Kept _ (add_request-Returns rid prompt n l i d v)
perform-IsValid tick d v =
    returning-Kept _ _
      (sync_pool-IsValid _ (v.eos_positive, decode_all-IsWithin d.eos_after d.requests v.within))
perform-IsValid (abort rid) d v = forget-Kept _ (abort_request-Returns rid d v)
perform-IsValid close d v =
    forget-Kept _
      (sync_pool-IsValid _ (v.eos_positive, free_all-IsWithin d.eos_after d.requests v.within))

init-IsValid :
    (total block_size overhead : ℕ) (eos : Option ℕ) {d : FakeEngineDriver}
    → init total block_size overhead eos ≡ ok d
    → IsValid d
unfolding init used_by
init-IsValid total block_size overhead eos {d = d} e =
    let zero_eos : is_zero d.eos_after ≡ false = ground arith in
    let nothing_used : d.used_blocks ≡ 0 = ground arith in
    let no_requests : d.requests ≡ [] = ground arith in
    record {
      eos_positive = zero_eos;
      used_eq = rw (no_requests, nothing_used) refl;
      bounded = omega arith;
      within = rw no_requests tt;
    }

run_keeps : (calls : List Call) (d : FakeEngineDriver) → IsValid d → Ensures IsValid (run calls d)
unfolding run
run_keeps [] d v = v
run_keeps (c ∷ calls) d v =
    Ensures-then IsValid (perform c d) (run calls)
      (λ d' e. run_keeps calls d' (of_Ensures IsValid (perform c d) (perform-IsValid c d v) e))

-- After any calls on a new fake engine that all return: the used blocks are those of the live
-- requests and no more than the pool has, and every request has at most the tokens it finishes
-- at, has fewer as long as it has not finished, and is freed once it has.
pub init-run-IsValid :
    (total block_size overhead : ℕ) (eos : Option ℕ) (calls : List Call) {d : FakeEngineDriver}
    → (init total block_size overhead eos >>= run calls) ≡ ok d
    → IsValid d
init-run-IsValid total block_size overhead eos calls e =
    of_Ensures IsValid (init total block_size overhead eos >>= run calls)
      (Ensures-then IsValid (init total block_size overhead eos) (run calls)
        (λ d f. run_keeps calls d (init-IsValid total block_size overhead eos f)))
      e
