-- ===== src/Bench/KvScaling/Cells/Measured.antt =====
-- bench/kv_scaling: what a cell that `run_cell` returns says of the engine, and that a sweep which
-- resumes accepts its artifact.
use goodputlab.Prelude.{
  ℕ, zero, suc, ◌+◌, ◌*◌, ◌≤◌, ◌≡◌, refl, sym, ap, subst, true, false, Option, some, List, [], ◌∷◌,
  map, ◌++◌, length, arith, All, Bool-cases, inl, inr, length-map, ◌∙◌,
}
use goodputlab.Bench.KvScaling.Cells.{
  KvScalingCell, SweepContext, Point, sample_of, request_names, any_other, cell_of, summarize,
  check_cell, take_samples, run_cell, measure_cell, plan, read_cell_json, write_cell_json,
  is_expected, model_validate_json,
}
use goodputlab.Bench.KvScaling.Engine.{EngineDriver, ◌>>=◌, lift, Ensures-after, Ensures-lift}
use goodputlab.Bench.KvScaling.Window.{SampleReadings, sample_decode_window, to_bytes, batch_size}
use goodputlab.Bench.KvScaling.Window.Gate.{IsCovered}
use goodputlab.Bench.KvScaling.Window.Readings.{sample_decode_window-IsConsistent}
use goodputlab.Prelude.Int.{ℤ, pos, ◌*ℤ◌}
use goodputlab.Prelude.Result.{ok, Ensures, of_Ensures, to_Ensures}
use goodputlab.Prelude.Text.{Text, text_eq}

module _ (ctx : SweepContext) (p : Point) where
  -- The bytes of whole blocks that cover this number of tokens, with at most one block for each
  -- request and 64 slots to spare.
  pub record IsBlocks (bytes : ℤ) (live : ℕ) : Type 0 where
    pub blocks : ℕ
    pub bytes_eq : bytes ≡ pos blocks *ℤ pos (ctx.block_size * ctx.theory_bpt)
    pub covers : live ≤ blocks * ctx.block_size
    pub tight : blocks * ctx.block_size ≤ live + p.batch_size * ctx.block_size + 64

  length-request_names : (i n k : ℕ) → length (request_names ctx p i n k) ≡ n
  length-request_names i zero k = refl
  length-request_names i (suc n) k = ap suc (length-request_names i n (k + 1))

  batch-sample_of : (chunks i : ℕ) → batch_size (sample_of ctx p chunks i) ≡ p.batch_size
  unfolding sample_of
  batch-sample_of chunks i = length-request_names i p.batch_size 0

  IsCovered-IsBlocks :
      (chunks i : ℕ) (used : ℤ) (live : ℕ) (bytes : ℤ)
      → IsCovered (sample_of ctx p chunks i) used live
      → bytes ≡ to_bytes (sample_of ctx p chunks i) used
      → IsBlocks bytes live
  unfolding sample_of to_bytes
  IsCovered-IsBlocks chunks i used live bytes c e =
      let batch = length-request_names i p.batch_size 0 in
      record {
        blocks = c.blocks;
        bytes_eq = e ∙ ap (λ u. u *ℤ pos (ctx.block_size * ctx.theory_bpt)) c.used_eq;
        covers = c.covers;
        tight = rw (← batch) c.tight;
      }

  abbrev IsSample : SampleReadings → Type 0
  IsSample r =
      IsBlocks r.kv_bytes_decode r.live_tokens_decode
      × IsBlocks r.kv_bytes_prefill r.live_tokens_prefill

  module _ (engine : EngineDriver) where
    sample_decode_window-IsSample :
        (chunks i : ℕ) (d : engine.Driver)
        → Ensures IsSample (sample_decode_window engine (sample_of ctx p chunks i) d).1
    sample_decode_window-IsSample chunks i d = to_Ensures IsSample _ (λ r e.
        let c = sample_decode_window-IsConsistent engine (sample_of ctx p chunks i) d e in
        (
          IsCovered-IsBlocks chunks i _ _ _ c.decode c.decode_bytes,
          IsCovered-IsBlocks chunks i _ _ _ c.prefill c.prefill_bytes,
        ))

    abbrev AreSamples : ℕ → List SampleReadings → Type 0
    AreSamples n rs = (length rs ≡ n) × All IsSample rs

    take_samples-AreSamples :
        (chunks n i : ℕ) (d : engine.Driver)
        → Ensures (AreSamples n) (take_samples engine ctx p chunks n i d).1
    unfolding take_samples
    take_samples-AreSamples chunks zero i d = (refl, tt)
    take_samples-AreSamples chunks (suc n) i d =
        Ensures-after (AreSamples (suc n))
          (λ r. take_samples engine ctx p chunks n (i + 1) >>= λ rs. lift (ok (r ∷ rs)))
          (sample_decode_window engine (sample_of ctx p chunks i) d)
          (λ d1 r e.
            let here =
              of_Ensures IsSample _ (sample_decode_window-IsSample chunks i d) (ap (λ x. x.1) e) in
            Ensures-after (AreSamples (suc n)) (λ rs. lift (ok (r ∷ rs)))
              (take_samples engine ctx p chunks n (i + 1) d1)
              (λ d2 rs f.
                let later =
                  of_Ensures (AreSamples n) _ (take_samples-AreSamples chunks n (i + 1) d1)
                    (ap (λ x. x.1) f) in
                (ap suc later.0, (here, later.1))))

  -- A measured cell: its record is valid and that of this point, and each of its samples is the
  -- bytes of whole blocks that cover the live tokens of the cell.
  pub record IsMeasured (c : KvScalingCell) : Type 0 where
    pub valid : check_cell c ≡ ok c
    pub seq_len : c.seq_len ≡ p.seq_len
    pub batch_size : c.batch_size ≡ p.batch_size
    pub n_samples : c.n_samples ≡ p.n_samples
    pub model_id : c.model_id ≡ ctx.model_id
    pub samples : length c.kv_bytes_used_samples ≡ p.n_samples
    pub blocks : All (λ b. IsBlocks b c.total_tokens) c.kv_bytes_used_samples

  same_live :
      (live : ℕ) (rs : List SampleReadings)
      → any_other live rs ≡ false
      → All IsSample rs
      → All (λ b. IsBlocks b live) (map (λ (r : SampleReadings). r.kv_bytes_decode) rs)
  same_live live [] h k = tt
  same_live live (r ∷ rs) h k =
      let e : r.live_tokens_decode ≡ live = ground (arith, h) in
      let rest : any_other live rs ≡ false = ground (arith, h) in
      (subst (λ n. IsBlocks r.kv_bytes_decode n) e k.0.0, same_live live rs rest k.1)

  check_cell-eq : (c c' : KvScalingCell) → check_cell c ≡ ok c' → c ≡ c'
  unfolding check_cell
  check_cell-eq c c' h = ground (arith, h)

  summarize-IsMeasured :
      (rs : List SampleReadings)
      → length rs ≡ p.n_samples
      → All IsSample rs
      → Ensures IsMeasured (summarize ctx p rs)
  unfolding summarize
  summarize-IsMeasured [] l k = tt
  summarize-IsMeasured (r ∷ rs) l k =
      let live = r.live_tokens_decode in
      let cell = cell_of ctx p live (r ∷ rs) in
      elim (Bool-cases (any_other live (r ∷ rs))) [
        | inl e ↦ rw (e, Ensures) tt
        | inr e ↦ rw e (
            to_Ensures IsMeasured (check_cell cell) (λ c h.
              let same = check_cell-eq cell c h in
              subst IsMeasured same (record {
                valid = h ∙ ap ok (sym same);
                seq_len = refl;
                batch_size = refl;
                n_samples = refl;
                model_id = refl;
                samples = length-map (r ∷ rs) (λ (q : SampleReadings). q.kv_bytes_decode) ∙ l;
                blocks = same_live live (r ∷ rs) e k;
              })))
      ]

  module _ (engine : EngineDriver) where
    run_cell-Ensures : (d : engine.Driver) → Ensures IsMeasured (run_cell engine ctx p d).1
    unfolding run_cell measure_cell
    run_cell-Ensures d =
        Ensures-lift IsMeasured (measure_cell engine ctx p) (plan engine ctx p) d (λ chunks e.
          Ensures-after IsMeasured (λ rs. lift (summarize ctx p rs))
            (take_samples engine ctx p chunks p.n_samples 0 d)
            (λ d1 rs f.
              let got =
                of_Ensures (AreSamples engine p.n_samples) _
                  (take_samples-AreSamples engine chunks p.n_samples 0 d) (ap (λ x. x.1) f) in
              summarize-IsMeasured rs got.0 got.1))

    -- On any engine, a cell that `run_cell` returns passes the validation of its schema, has the
    -- lengths, the number of samples and the model that were asked for, and one value for each
    -- sample. Each value is the bytes of whole blocks that cover the cell's live tokens, with at
    -- most one block for each request and 64 slots to spare.
    pub run_cell-IsMeasured :
        (d : engine.Driver) {c : KvScalingCell} → (run_cell engine ctx p d).1 ≡ ok c → IsMeasured c
    run_cell-IsMeasured d e = of_Ensures IsMeasured _ (run_cell-Ensures d) e

    -- A sweep that resumes takes the artifact of a cell for the cell: when `run_cell` has returned
    -- a cell and its text was written, reading that text for the same lengths, number of samples
    -- and model gives the cell. Of the JSON library it is supposed that the text of the cell parses
    -- to its fields.
    pub read_cell_json-write_cell_json :
        (parse : Text → Option KvScalingCell) (dump : KvScalingCell → Text) (d : engine.Driver)
        {c : KvScalingCell}
        → (run_cell engine ctx p d).1 ≡ ok c
        → parse (dump c ++ 10 ∷ []) ≡ some c
        → read_cell_json parse dump
            (some (write_cell_json parse dump c))
            p.seq_len
            p.batch_size
            p.n_samples
            ctx.model_id
          ≡ some c
    unfolding read_cell_json write_cell_json
    read_cell_json-write_cell_json parse dump d {c = c} e h =
        let m = run_cell-IsMeasured d e in
        let read : model_validate_json parse dump (dump c ++ 10 ∷ []) ≡ ok c =
          rw (model_validate_json, h) m.valid in
        let model = text_eq c.model_id ctx.model_id m.model_id in
        let expected : is_expected parse dump p.seq_len p.batch_size p.n_samples ctx.model_id c
            ≡ true =
          ground (arith, m.seq_len, m.batch_size, m.n_samples, model) in
        rw (read, expected)
