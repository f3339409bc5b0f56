-- ===== src/Spec/Eagle.antt =====
-- spec/eagle.py: the draft-verify simulator with its sliding window, the automatic switch-off and
-- the topology gate. The random generator is the stream `rng` of its draws with a position.
pub mod Gate
use goodputlab.Prelude.{
  ℕ, zero, suc, ◌+◌, ◌-◌, ◌≤◌, ◌≡◌, refl, Bool, true, false, ◌&&◌, Option, none, some, List, [],
  ◌∷◌, ◌++◌, if◌then◌else◌, ltb, leb, length, drop,
}
use goodputlab.Prelude.Float.{FloatOps}
use goodputlab.Prelude.Int.{ℤ, pos}
use goodputlab.Prelude.Text.{Text, codes, decimal}

pub data Topology : Type 0 where
  colocated chunked disagg disagg_tier : Topology

-- `is_topology_compatible`
unfoldable pub is_topology_compatible : Topology → Bool
is_topology_compatible colocated = true
is_topology_compatible chunked = true
is_topology_compatible _ = false

abbrev pub sum : List ℕ → ℕ
sum [] = 0
sum (x ∷ xs) = x + sum xs

-- `window.append(x)` on a deque with `maxlen`.
unfoldable pub push : ℕ → List ℕ → ℕ → List ℕ
push maxlen window x = drop (length (window ++ x ∷ []) - maxlen) (window ++ x ∷ [])

module _ (fl : FloatOps) where
  open fl use {F, of_int, true_div, lt, le}

  pub record VerifyOutcome : Type 0 where
    pub accepted_tokens : List Text
    pub proposed : ℕ
    pub accepted : ℕ

  unfoldable pub acceptance_rate : VerifyOutcome → F
  acceptance_rate v =
      if leb v.proposed 0 then of_int (pos 0) else true_div (pos v.accepted) (pos v.proposed)

  pub record SpecPolicy : Type 0 where
    pub enabled : Bool
    pub min_acceptance_rate : F
    pub min_window : ℕ
    pub topology : Topology

  pub record SpecDecoder : Type 0 where
    pub policy : SpecPolicy
    pub target_rate : F
    pub rng : ℕ → F
    pub position : ℕ
    pub window : List ℕ
    pub total_proposed : ℕ
    pub total_accepted : ℕ

  unfoldable pub enable : SpecDecoder → SpecDecoder
  enable d = record d { policy = record d.policy { enabled = true } }

  unfoldable pub disable : SpecDecoder → SpecDecoder
  disable d = record d { policy = record d.policy { enabled = false } }

  unfoldable pub init : SpecPolicy → F → (ℕ → F) → SpecDecoder
  unfolding disable is_topology_compatible
  init policy acceptance_rate rng =
      let d : SpecDecoder = record {
        policy = policy;
        target_rate = acceptance_rate;
        rng = rng;
        position = 0;
        window = [];
        total_proposed = 0;
        total_accepted = 0;
      } in
      if is_topology_compatible policy.topology then d else disable d

  unfoldable pub observed_acceptance_rate : List ℕ → F
  observed_acceptance_rate [] = of_int (pos 0)
  observed_acceptance_rate (x ∷ window) =
      true_div (pos (sum (x ∷ window))) (pos (length (x ∷ window)))

  -- The loop over the drafts from `i` on, `left` of them: the accepted tokens in order.
  unfoldable pub verify : (ℕ → F) → F → ℕ → ℕ → List Text
  verify draw target i zero = []
  verify draw target i (suc left) =
      if lt (draw i) target
      then (codes "draft-" ++ decimal i) ∷ verify draw target (i + 1) left
      else verify draw target (i + 1) left

  -- `per_round_rate >= min_acceptance_rate`, as 1 or 0.
  unfoldable pub rate_bin : F → ℕ → ℕ → ℕ
  rate_bin threshold accepted n_draft =
      let rate = if ltb 0 n_draft then true_div (pos accepted) (pos n_draft) else of_int (pos 0) in
      if le threshold rate then 1 else 0

  -- The window is full and its mean lies below the threshold.
  unfoldable pub failing : SpecPolicy → List ℕ → Bool
  unfolding observed_acceptance_rate
  failing policy window =
      leb policy.min_window (length window)
      && lt (observed_acceptance_rate window) policy.min_acceptance_rate

  -- One round of a decoder that is enabled.
  unfoldable pub round : ℕ → SpecDecoder → SpecDecoder × VerifyOutcome
  unfolding disable
  round n_draft d =
      let tokens = verify (λ i. d.rng (d.position + i)) d.target_rate 0 n_draft in
      let accepted = length tokens in
      let window =
        push d.policy.min_window d.window
          (rate_bin d.policy.min_acceptance_rate accepted n_draft) in
      let d' : SpecDecoder = record d {
        position = d.position + n_draft;
        window = window;
        total_proposed = d.total_proposed + n_draft;
        total_accepted = d.total_accepted + accepted;
      } in
      (
        (if failing d.policy window then disable d' else d'),
        record { accepted_tokens = tokens; proposed = n_draft; accepted = accepted },
      )

  unfoldable pub propose_and_verify : ℕ → SpecDecoder → SpecDecoder × Option VerifyOutcome
  propose_and_verify n_draft d =
      if d.policy.enabled then (let (d', v) = round n_draft d in (d', some v)) else (d, none)
