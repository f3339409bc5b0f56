-- ===== src/Obs.antt =====
-- obs/registry.py: the typed metrics of the control plane. The handles are objects of the package
-- prometheus_client, which is not modelled: a registry is the list of the operations that the code
-- makes on its handles, the oldest first.
use goodputlab.Prelude.{◌≡◌, refl, List, [], ◌∷◌, ◌++◌, map}
use goodputlab.Prelude.Float.{FloatOps}
use goodputlab.Prelude.Int.{ℤ, pos}
use goodputlab.Prelude.Text.{Text, codes}

pub data Metric : Type 0 where
  ttft_ms itl_ms queue_depth prefix_index_size_bytes kv_tier_hit kv_tier_miss : Metric
  spec_acceptance spec_proposed role_flip request_total request_error : Metric
  reconcile_gate_passes no_history controller_thrash role_flip_inflight_dropped : Metric

pub data Kind : Type 0 where
  histogram gauge counter : Kind

-- The constructor calls of `MetricsRegistry.__init__`: each handle's class and `labelnames`.
abbrev pub kind : Metric → Kind
kind ttft_ms = histogram
kind itl_ms = histogram
kind queue_depth = gauge
kind prefix_index_size_bytes = gauge
kind _ = counter

abbrev pub label_names : Metric → List Text
label_names ttft_ms = codes "slo_class" ∷ []
label_names itl_ms = codes "slo_class" ∷ []
label_names queue_depth = codes "pool" ∷ []
label_names kv_tier_hit = codes "tier" ∷ []
label_names kv_tier_miss = codes "tier" ∷ []
label_names role_flip = codes "from" ∷ codes "to" ∷ []
label_names request_total = codes "status_code" ∷ []
label_names request_error = codes "error_class" ∷ []
label_names _ = []

module _ (fl : FloatOps) where
  open fl use {F, of_int}

  pub data Action : Type 0 where
    observe : F → Action
    set : F → Action
    inc : F → Action

  pub record Operation : Type 0 where
    pub metric : Metric
    pub labels : List (Text × Text)
    pub action : Action

  abbrev pub MetricsRegistry : Type 0
  MetricsRegistry = List Operation

  abbrev pub call : Metric → List (Text × Text) → Action → MetricsRegistry → MetricsRegistry
  call m labels a r = r ++ record { metric = m; labels = labels; action = a } ∷ []

  unfoldable pub observe_ttft : Text → F → MetricsRegistry → MetricsRegistry
  observe_ttft slo_class v = call ttft_ms ((codes "slo_class", slo_class) ∷ []) (observe v)

  unfoldable pub observe_itl : Text → F → MetricsRegistry → MetricsRegistry
  observe_itl slo_class v = call itl_ms ((codes "slo_class", slo_class) ∷ []) (observe v)

  unfoldable pub set_queue_depth : Text → ℤ → MetricsRegistry → MetricsRegistry
  set_queue_depth pool depth = call queue_depth ((codes "pool", pool) ∷ []) (set (of_int depth))

  unfoldable pub set_prefix_index_size_bytes : F → MetricsRegistry → MetricsRegistry
  set_prefix_index_size_bytes size = call prefix_index_size_bytes [] (set size)

  unfoldable pub inc_kv_hit : Text → ℤ → MetricsRegistry → MetricsRegistry
  inc_kv_hit tier n = call kv_tier_hit ((codes "tier", tier) ∷ []) (inc (of_int n))

  unfoldable pub inc_kv_miss : Text → ℤ → MetricsRegistry → MetricsRegistry
  inc_kv_miss tier n = call kv_tier_miss ((codes "tier", tier) ∷ []) (inc (of_int n))

  unfoldable pub inc_spec_accepted : ℤ → MetricsRegistry → MetricsRegistry
  inc_spec_accepted n = call spec_acceptance [] (inc (of_int n))

  unfoldable pub inc_spec_proposed : ℤ → MetricsRegistry → MetricsRegistry
  inc_spec_proposed n = call spec_proposed [] (inc (of_int n))

  unfoldable pub inc_role_flip : Text → Text → MetricsRegistry → MetricsRegistry
  inc_role_flip from_role to_role =
      call role_flip ((codes "from", from_role) ∷ (codes "to", to_role) ∷ []) (inc (of_int (pos 1)))

  -- The argument is `str(status_code)`.
  unfoldable pub inc_request : Text → MetricsRegistry → MetricsRegistry
  inc_request status =
      call request_total ((codes "status_code", status) ∷ []) (inc (of_int (pos 1)))

  unfoldable pub inc_request_error : Text → MetricsRegistry → MetricsRegistry
  inc_request_error error_class =
      call request_error ((codes "error_class", error_class) ∷ []) (inc (of_int (pos 1)))

  unfoldable pub inc_gate_pass : MetricsRegistry → MetricsRegistry
  inc_gate_pass = call reconcile_gate_passes [] (inc (of_int (pos 1)))

  unfoldable pub inc_no_history : MetricsRegistry → MetricsRegistry
  inc_no_history = call no_history [] (inc (of_int (pos 1)))

  unfoldable pub inc_controller_thrash : MetricsRegistry → MetricsRegistry
  inc_controller_thrash = call controller_thrash [] (inc (of_int (pos 1)))

  unfoldable pub inc_inflight_dropped : ℤ → MetricsRegistry → MetricsRegistry
  inc_inflight_dropped n = call role_flip_inflight_dropped [] (inc (of_int n))

  -- What prometheus_client accepts of an operation: the labels that its handle was declared with,
  -- and a method of the handle's class.
  abbrev pub Suits : Kind → Action → Type 0
  Suits histogram (observe _) = Unit
  Suits gauge (set _) = Unit
  Suits counter (inc _) = Unit
  Suits _ _ = ⊥

  abbrev pub Accepts : Operation → Type 0
  Accepts o = (map (λ l. l.0) o.labels ≡ label_names o.metric) × Suits (kind o.metric) o.action

  -- One call of a recording helper.
  pub data Recording : Type 0 where
    ttft itl : Text → F → Recording
    depth : Text → ℤ → Recording
    index_size : F → Recording
    kv_hit kv_miss : Text → ℤ → Recording
    accepted proposed dropped : ℤ → Recording
    flip : Text → Text → Recording
    request failure : Text → Recording
    gate_pass cold thrash : Recording

  unfoldable pub record_call : Recording → MetricsRegistry → MetricsRegistry
  unfolding observe_ttft observe_itl set_queue_depth set_prefix_index_size_bytes inc_kv_hit
      inc_kv_miss inc_spec_accepted inc_spec_proposed inc_role_flip inc_request inc_request_error
      inc_gate_pass inc_no_history inc_controller_thrash inc_inflight_dropped
  record_call (ttft c v) = observe_ttft c v
  record_call (itl c v) = observe_itl c v
  record_call (depth p n) = set_queue_depth p n
  record_call (index_size v) = set_prefix_index_size_bytes v
  record_call (kv_hit t n) = inc_kv_hit t n
  record_call (kv_miss t n) = inc_kv_miss t n
  record_call (accepted n) = inc_spec_accepted n
  record_call (proposed n) = inc_spec_proposed n
  record_call (dropped n) = inc_inflight_dropped n
  record_call (flip a b) = inc_role_flip a b
  record_call (request s) = inc_request s
  record_call (failure e) = inc_request_error e
  record_call gate_pass = inc_gate_pass
  record_call cold = inc_no_history
  record_call thrash = inc_controller_thrash

  -- Every recording helper makes exactly one operation, at the end of the registry, and with the
  -- labels and the method that the handle it names was declared for.
  record_call-Accepts :
      (c : Recording) (r : MetricsRegistry)
      → (o : Operation) × (record_call c r ≡ r ++ o ∷ []) × Accepts o
  unfolding record_call
  record_call-Accepts (ttft c v) r = (_, refl, (refl, tt))
  record_call-Accepts _ r = (_, refl, (refl, tt))
