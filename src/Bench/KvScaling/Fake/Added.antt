-- ===== src/Bench/KvScaling/Fake/Added.antt =====
-- A batch that is added to an idle fake engine.
use goodputlab.Prelude.{
  ℕ, ◌<◌, ◌≡◌, refl, sym, subst, ◌∙◌, ap, true, false, none, List, [], ◌∷◌, ◌++◌, arith, ltb, ◌==◌,
  length, All, if_neg,
}
use goodputlab.Bench.KvScaling.Fake.{FakeEngineDriver, fake, add_request, fresh_request, sync_pool}
use goodputlab.Bench.KvScaling.Fake.Lockstep.{IsDistinct, IsDistinct-front, IsNew}
use goodputlab.Bench.KvScaling.Fake.Uniform.{
  Batch, ids, lens, requests, request, engine, used_by-requests,
}
use goodputlab.Bench.KvScaling.Window.{Sample, add_requests}
use goodputlab.Prelude.Dict.{lookup, contains}
use goodputlab.Prelude.Dict.Recent.{set-absent}
use goodputlab.Prelude.Result.{ok}
use goodputlab.Prelude.Text.{Text, text_discrete}
use mathlib.Core.List.{append_assoc, append-nil}

module _ (n : ℕ) where
  requests-append :
      (a c : Batch) → requests false n 0 (a ++ c) ≡ requests false n 0 a ++ requests false n 0 c
  requests-append [] c = refl
  requests-append (e ∷ a) c = ap (λ t. (e.0, request false n 0 e.1) ∷ t) (requests-append a c)

  lookup-requests_new :
      (k : Text) (a : Batch) → IsNew k a → lookup text_discrete k (requests false n 0 a) ≡ none
  unfolding lookup
  lookup-requests_new k [] h = refl
  lookup-requests_new k (e ∷ a) h =
      if_neg (text_discrete e.0 k) h.0 _ _ ∙ lookup-requests_new k a h.1

module _ (d : FakeEngineDriver) (n : ℕ) where
  sync_pool-idle :
      (a : Batch)
      → sync_pool (record (engine d false n 0 []) { requests = requests false n 0 a })
        ≡ (engine d false n 0 a, ok tt)
  unfolding sync_pool
  sync_pool-idle a =
      let fits : ltb d.total_blocks 0 ≡ false = ground arith in
      rw (used_by-requests false d.block_size n 0 a, fits) refl

  add_request-idle :
      (prompt : Text) (a : Batch) (e : Text × ℕ)
      → 0 < n
      → 0 < e.1
      → IsNew e.0 a
      → add_request e.0 prompt n e.1 true (engine d false n 0 a)
        ≡ (engine d false n 0 (a ++ e ∷ []), ok tt)
  unfolding add_request contains
  add_request-idle prompt a e some_tokens some_prompt h =
      let absent = lookup-requests_new n e.0 a h in
      let tokens : (n == 0) ≡ false = ground (arith, some_tokens) in
      let prompted : (e.1 == 0) ≡ false = ground (arith, some_prompt) in
      let at_end =
        set-absent text_discrete e.0 (fresh_request n e.1 true) (requests false n 0 a) absent
        ∙ sym (requests-append n a (e ∷ [])) in
      rw (add_request, contains, absent, tokens, prompted, at_end) (sync_pool-idle (a ++ e ∷ []))

  -- The requests are added one after the other, and nothing is used yet.
  pub add_requests-idle :
      (s : Sample) (a c : Batch) (prompts : List Text)
      → s.decode_tokens ≡ n
      → s.ignore_eos ≡ true
      → 0 < n
      → All (λ e. 0 < e.1) c
      → IsDistinct (a ++ c)
      → length prompts ≡ length c
      → add_requests fake s (ids c) prompts (lens c) (engine d false n 0 a)
        ≡ (engine d false n 0 (a ++ c), ok tt)
  unfolding add_requests
  add_requests-idle s a [] prompts same ignored some_tokens nonempty distinct enough =
      ap (λ c. (engine d false n 0 c, ok tt)) (sym (append-nil a))
  add_requests-idle s a (e ∷ c) [] same ignored some_tokens nonempty distinct enough =
      absurd (omega (arith, enough))
  add_requests-idle s a (e ∷ c) (p ∷ prompts) same ignored some_tokens nonempty distinct enough =
      let new = IsDistinct-front a e c distinct in
      let one = add_request-idle p a e some_tokens nonempty.0 new in
      let rest =
        add_requests-idle s (a ++ e ∷ []) c prompts same ignored some_tokens nonempty.1
          (subst IsDistinct (sym (append_assoc a (e ∷ []) c)) distinct) (omega (arith, enough)) in
      rw (same, ignored, one, rest, append_assoc a (e ∷ []) c)
