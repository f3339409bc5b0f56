-- ===== src/Scripts/Proxy/Stages.antt =====
-- scripts/disagg_proxy.py: which upstream calls a completion makes, and in which order.
use goodputlab.Prelude.{
  none, false, ◌≤◌, ◌<◌, ◌≡◌, ◌≢◌, ◌⊎◌, inl, inr, refl, sym, subst, true, Option, some, List, [],
  ◌∷◌, ◌++◌, leb, if◌then◌else◌, arith, Bool-cases,
}
use goodputlab.Prelude.Dict.{set, lookup-set_ne, lookup-set_self}
use goodputlab.Prelude.Json.{Json, null, get_or, truthy}
use goodputlab.Prelude.Result.{
  eq_of_ok, Error, Result, ok, raise, http_error, Result-cases, eq_ok-bind, ◌>>=◌,
}
use goodputlab.Prelude.Text.{Text, Bytes, codes, text_discrete}
use goodputlab.Scripts.Proxy.{
  json, Body, Call, Reached, replied, failed, relay, State, Outcome, decode_body, run_decode,
  chat_completions, completions, two_stages, prefill_call, decode_call, passed_on, kv_params,
  upstream, id_headers, request_id, Sentinel, maybe_assert_first_token, streamed_decode,
  is_streaming, buffered_decode, Content, stream, post, Upstream,
}
use goodputlab.Scripts.Proxy.Bodies.{value}

Reached-cases :
    (r : Reached) → ((why : Text) × (r ≡ failed why)) ⊎ ((up : Upstream) × (r ≡ replied up))
Reached-cases (failed why) = inl (why, refl)
Reached-cases (replied up) = inr (up, refl)

-- The handle of a prefill response: null if the response is no JSON, or has none.
abbrev pub IsHandle : (Bytes → Option Json) → Bytes → Json → Type 0
IsHandle parse content params =
    ((parse content ≡ none) × (params ≡ null))
    ⊎ ((v : Json) × (parse content ≡ some v)
        × (get_or (codes "kv_transfer_params") null v ≡ ok params))

-- Reading the handle raises: the response is JSON, but no object.
abbrev pub IsUnreadable : (Bytes → Option Json) → Bytes → Error → Type 0
IsUnreadable parse content e =
    (v : Json) × (parse content ≡ some v) × (get_or (codes "kv_transfer_params") null v ≡ raise e)

-- The client's body with a handle that is true in Python, or else as it is.
abbrev pub Carries : (Bytes → Option Json) → Body → Bytes → Body → Type 0
Carries parse body content next =
    ((q : Text) → codes "kv_transfer_params" ≢ q → value q next ≡ value q body)
    × ((params : Json) × IsHandle parse content params
        × (((truthy params ≡ true) × (value (codes "kv_transfer_params") next ≡ some params))
            ⊎ ((truthy params ≡ false)
                × (value (codes "kv_transfer_params") next
                    ≡ value (codes "kv_transfer_params") body))))

module _ (parse : Bytes → Option Json) where
  kv_params-IsHandle :
      (content : Bytes) (parsed : Option Json) (params : Json)
      → parse content ≡ parsed
      → kv_params parse content ≡ ok params
      → IsHandle parse content params
  kv_params-IsHandle content none params e got =
      let same : ok null ≡ ok params = rw (e, kv_params) at got in inl (e, sym (eq_of_ok same))
  kv_params-IsHandle content (some v) params e got = inr (v, e, rw (e, kv_params) at got)

  bind-raise :
      (m : Result Json) (k : Json → Body) {e : Error}
      → (m >>= λ a. ok (k a)) ≡ raise e
      → m ≡ raise e
  bind-raise (ok a) k h = cc
  bind-raise (raise x) k h = cc

  decode_body-IsUnreadable :
      (body : Body) (content : Bytes) (parsed : Option Json) {e : Error}
      → parse content ≡ parsed
      → decode_body parse body content ≡ raise e
      → IsUnreadable parse content e
  unfolding decode_body
  decode_body-IsUnreadable body content none e h = let broken = rw (e, kv_params) at h in cc
  decode_body-IsUnreadable body content (some v) e h =
      (v, e, bind-raise _ _ (rw (e, kv_params) at h))

  decode_body-Carries :
      (body : Body) (content : Bytes) (next : Body)
      → decode_body parse body content ≡ ok next
      → Carries parse body content next
  unfolding decode_body
  decode_body-Carries body content next h =
      let key = codes "kv_transfer_params" in
      let (params, got, same) =
        eq_ok-bind
          (λ (params : Json).
            ok (if truthy params then set text_discrete key params body else body))
          (kv_params parse content) h in
      elim (Bool-cases (truthy params)) [
        | inl e ↦
            let eq : set text_discrete key params body ≡ next = ground (arith, same, e) in
            rw (← eq) (
              (λ q ne. lookup-set_ne text_discrete key q params body ne),
              (
                params,
                kv_params-IsHandle content _ params refl got,
                inl (e, lookup-set_self text_discrete key params body),
              ),
            )
        | inr e ↦
            let eq : body ≡ next = ground (arith, same, e) in
            rw (← eq) (
              (λ q ne. refl),
              (params, kv_params-IsHandle content _ params refl got, inr (e, refl)),
            )
      ]

abbrev pub relayed : Content → List Call
relayed (relay c) = c ∷ []
relayed _ = []

-- The calls of a handler, with the one that a streamed reply makes.
abbrev pub all_calls : Outcome → List Call
all_calls (ok r, calls) = relayed r.content ++ calls
all_calls (raise _, calls) = calls

-- A buffered reply makes no call.
buffered-calls :
    (reached : Result Upstream) (check : Upstream → Result Sentinel) (ident : Text)
    (calls : List Call)
    → all_calls ((do up ← reached; _ ← check up; ok (passed_on up ident)), calls) ≡ calls
buffered-calls (raise e) check ident calls = refl
buffered-calls (ok up) check ident calls = elim (Result-cases (check up)) [
  | inl (seen, e) ↦ rw e
  | inr (x, e) ↦ rw e
]

module _ (parse : Bytes → Option Json) (decode : Bytes → Text) (loads : Text → Option Json)
    (net : List Call → Reached) (state : State) where
  -- The decode stage's call, after this response of the prefill stage.
  abbrev pub IsDecode : Text → Text → Body → Upstream → Call → Type 0
  IsDecode path ident body up c =
      (c.url ≡ state.decode_url ++ path)
      × (c.headers ≡ id_headers ident)
      × ((next : Body) × (c.payload ≡ json next) × Carries parse body up.content next)

  -- The prefill stage alone, as the server does not answer, answers with an error, or gives a
  -- response that no handle can be read from; or both stages.
  abbrev pub IsStaged : Text → Text → Body → List Call → Outcome → Type 0
  IsStaged path ident body calls outcome =
      let made = prefill_call state path body ident ∷ calls in
      ((all_calls outcome ≡ made)
        × (((why : Text) × (net made ≡ failed why) × (outcome.0 ≡ raise http_error))
            ⊎ ((up : Upstream) × (net made ≡ replied up)
                × (((400 ≤ up.status_code) × (outcome.0 ≡ ok (passed_on up ident)))
                    ⊎ ((up.status_code < 400)
                        × ((e : Error) × IsUnreadable parse up.content e
                            × (outcome.0 ≡ raise e)))))))
      ⊎ ((up : Upstream) × (net made ≡ replied up)
          × (up.status_code < 400)
          × ((c : Call) × (all_calls outcome ≡ c ∷ made) × IsDecode path ident body up c))

  buffered_decode-calls :
      (path : Text) (next : Body) (ident : Text) (calls : List Call)
      → all_calls (buffered_decode parse decode loads net state path next ident calls)
        ≡ decode_call state post path next ident ∷ calls
  buffered_decode-calls path next ident calls =
      let made = decode_call state post path next ident ∷ calls in
      buffered-calls (upstream (net made))
        (λ up. maybe_assert_first_token loads state.assert_first_token (decode up.content) path)
        ident made

  run_decode-IsStaged :
      (path : Text) (body : Body) (up : Upstream) (ident : Text) (calls : List Call)
      → let made = prefill_call state path body ident ∷ calls in
        net made ≡ replied up
        → up.status_code < 400
        → IsStaged path ident body calls
            (run_decode parse decode loads net state path body up.content ident made)
  unfolding run_decode
  run_decode-IsStaged path body up ident calls reached low =
      let made = prefill_call state path body ident ∷ calls in
      let outcome = run_decode parse decode loads net state path body up.content ident made in
      elim (Result-cases (decode_body parse body up.content)) [
        | inr (x, e) ↦
            let eq : outcome ≡ (raise x, made) = rw (run_decode, e) in
            subst (IsStaged path ident body calls) (sym eq) (
              inl (
                refl,
                inr (
                  up,
                  reached,
                  inr (low, (x, decode_body-IsUnreadable parse body up.content _ refl e, refl)),
                ),
              ))
        | inl (next, e) ↦
            let carries = decode_body-Carries parse body up.content next e in
            elim (Bool-cases (is_streaming body)) [
              | inl s ↦
                  let eq : outcome ≡ (ok (streamed_decode state path next ident), made) =
                    rw (run_decode, e, s) in
                  subst (IsStaged path ident body calls) (sym eq) (
                    inr (
                      up,
                      reached,
                      low,
                      (
                        decode_call state stream path next ident,
                        refl,
                        (refl, refl, (next, refl, carries)),
                      ),
                    ))
              | inr s ↦
                  let eq : outcome
                      ≡ buffered_decode parse decode loads net state path next ident made =
                    rw (run_decode, e, s) in
                  subst (IsStaged path ident body calls) (sym eq) (
                    inr (
                      up,
                      reached,
                      low,
                      (
                        decode_call state post path next ident,
                        buffered_decode-calls path next ident made,
                        (refl, refl, (next, refl, carries)),
                      ),
                    ))
            ]
      ]

  two_stages-IsStaged :
      (path ident : Text) (body : Body) (calls : List Call)
      → IsStaged path ident body calls
          (two_stages parse decode loads net state path ident body calls)
  two_stages-IsStaged path ident body calls =
      let made = prefill_call state path body ident ∷ calls in
      let outcome = two_stages parse decode loads net state path ident body calls in
      elim (Reached-cases (net made)) [
        | inl (why, e) ↦
            let eq : outcome ≡ (raise http_error, made) = rw (two_stages, e) in
            subst (IsStaged path ident body calls) (sym eq) (inl (refl, inl (why, e, refl)))
        | inr (up, e) ↦ elim (Bool-cases (leb 400 up.status_code)) [
          | inl high ↦
              let eq : outcome ≡ (ok (passed_on up ident), made) = rw (two_stages, e, high) in
              subst (IsStaged path ident body calls) (sym eq)
                (inl (refl, inr (up, e, inl (ground (arith, high), refl))))
          | inr low ↦
              let eq : outcome
                  ≡ run_decode parse decode loads net state path body up.content ident made =
                rw (two_stages, e, low) in
              subst (IsStaged path ident body calls) (sym eq)
                (run_decode-IsStaged path body up ident calls e (ground (arith, low)))
        ]
      ]

  -- Both completion routes contact the decode server only after the prefill server, and just when
  -- that has answered with a status below 400 from whose body the handle can be read. An answer of
  -- 400 or above is passed on as the reply; with no answer, or an answer that is JSON but no object,
  -- an exception is raised. The decode call goes to the same path with the same request identifier.
  -- It carries the client's body, and in it the handle of the prefill response unless that has
  -- none or an empty one; a streamed reply makes the call when its body is sent. Either way no
  -- other call is made.
  pub completions-IsStaged :
      (incoming : Option Text) (minted : Text) (body : Body) (calls : List Call)
      → let ident = request_id incoming minted in
        IsStaged
          (codes "/v1/chat/completions")
          ident
          body
          calls
          (chat_completions parse decode loads net state incoming minted (ok body) calls)
        × IsStaged
            (codes "/v1/completions")
            ident
            body
            calls
            (completions parse decode loads net state incoming minted (ok body) calls)
  unfolding chat_completions completions
  completions-IsStaged incoming minted body calls =
      let ident = request_id incoming minted in
      (
        two_stages-IsStaged (codes "/v1/chat/completions") ident body calls,
        two_stages-IsStaged (codes "/v1/completions") ident body calls,
      )
