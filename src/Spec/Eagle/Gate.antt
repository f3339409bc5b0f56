-- ===== src/Spec/Eagle/Gate.antt =====
-- The switch-off, the topology gate and the counters of spec/eagle.py over sequences of rounds.
use goodputlab.Prelude.{
  ℕ, zero, suc, ◌+◌, ◌-◌, ◌≤◌, ◌<◌, ◌≡◌, refl, true, false, Option, none, List, [], ◌∷◌, ◌++◌,
  length, length-drop, arith, All,
}
use goodputlab.Prelude.Float.{FloatOps}
use goodputlab.Spec.Eagle.{
  is_topology_compatible, push, VerifyOutcome, SpecPolicy, SpecDecoder, init, failing, verify,
  round, rate_bin, propose_and_verify,
}

length-push-le : (maxlen : ℕ) (window : List ℕ) (x : ℕ) → length (push maxlen window x) ≤ maxlen
unfolding push
length-push-le maxlen window x =
    omega (arith, length-drop (length (window ++ x ∷ []) - maxlen) (window ++ x ∷ []))

module _ (fl : FloatOps) where
  open fl use {F, lt}

  length-verify-le :
      (draw : ℕ → F) (target : F) (i left : ℕ) → length (verify fl draw target i left) ≤ left
  unfolding verify
  length-verify-le draw target i zero = omega arith
  length-verify-le draw target i (suc left) =
      ground (arith, length-verify-le draw target (i + 1) left)

  -- The outcomes of rounds with the given numbers of drafts.
  unfoldable pub rounds :
      List ℕ → SpecDecoder fl → SpecDecoder fl × List (Option (VerifyOutcome fl))
  rounds [] d = (d, [])
  rounds (n ∷ ns) d =
      let (d', o) = propose_and_verify fl n d in let (d'', os) = rounds ns d' in (d'', o ∷ os)

  -- The window is within its length, no more was accepted than proposed, the topology is one
  -- that helps while the decoder is on, and it is off once the full window has failed.
  pub record IsValid (d : SpecDecoder fl) : Type 0 where
    pub bounded : length d.window ≤ d.policy.min_window
    pub counted : d.total_accepted ≤ d.total_proposed
    pub compatible : d.policy.enabled ≡ true → is_topology_compatible d.policy.topology ≡ true
    pub passing : d.policy.enabled ≡ true → failing fl d.policy d.window ≡ false

  propose_and_verify-IsValid :
      (n : ℕ) (d : SpecDecoder fl) → IsValid d → IsValid (propose_and_verify fl n d).0
  unfolding propose_and_verify round
  propose_and_verify-IsValid n d v =
      let draw : ℕ → F = λ i. d.rng (d.position + i) in
      let accepted = length (verify fl draw d.target_rate 0 n) in
      ground (
        arith,
        length-verify-le draw d.target_rate 0 n,
        length-push-le d.policy.min_window d.window
            (rate_bin fl d.policy.min_acceptance_rate accepted n),
      )

  off-propose :
      (n : ℕ) (d : SpecDecoder fl)
      → d.policy.enabled ≡ false
      → propose_and_verify fl n d ≡ (d, none)
  unfolding propose_and_verify
  off-propose n d off = rw (off, propose_and_verify) refl

  rounds_off :
      (ns : List ℕ) (d : SpecDecoder fl)
      → d.policy.enabled ≡ false
      → ((rounds ns d).0 ≡ d) × All (λ o. o ≡ none) (rounds ns d).1
  unfolding rounds
  rounds_off [] d off = (refl, tt)
  rounds_off (n ∷ ns) d off =
      let (same, all_none) = rounds_off ns d off in
      rw (off-propose n d off) (same, (refl, all_none))

  -- On a topology that speculation does not help, a new decoder answers every round with `None`
  -- and keeps its state; only `enable` could change that.
  rounds-init_incompatible :
      (ns : List ℕ) (policy : SpecPolicy fl) (rate : F) (rng : ℕ → F)
      → is_topology_compatible policy.topology ≡ false
      → ((rounds ns (init fl policy rate rng)).0 ≡ init fl policy rate rng)
        × All (λ o. o ≡ none) (rounds ns (init fl policy rate rng)).1
  unfolding init
  rounds-init_incompatible ns policy rate rng h =
      rounds_off ns (init fl policy rate rng) (ground arith)

  rounds_keep : (ns : List ℕ) (d : SpecDecoder fl) → IsValid d → IsValid (rounds ns d).0
  unfolding rounds
  rounds_keep [] d v = v
  rounds_keep (n ∷ ns) d v =
      rounds_keep ns (propose_and_verify fl n d).0 (propose_and_verify-IsValid n d v)

  init-IsValid :
      (policy : SpecPolicy fl) (rate : F) (rng : ℕ → F)
      → 0 < policy.min_window
      → IsValid (init fl policy rate rng)
  unfolding init failing
  init-IsValid policy rate rng h = ground arith

  -- After any rounds of a new decoder with a positive window length: the window is within its
  -- length, no more tokens were accepted than proposed, and a decoder that is still on has a
  -- topology that helps and a window that is not full or not below the threshold.
  pub rounds-IsValid :
      (ns : List ℕ) (policy : SpecPolicy fl) (rate : F) (rng : ℕ → F)
      → 0 < policy.min_window
      → IsValid (rounds ns (init fl policy rate rng)).0
  rounds-IsValid ns policy rate rng h =
      rounds_keep ns (init fl policy rate rng) (init-IsValid policy rate rng h)
