-- ===== src/Scripts/Proxy/Probes.antt =====
-- scripts/disagg_proxy.py: `/v1/models`, `/health`, `/metrics` and `/`. A handler is as in
-- `Proxy`: the calls go on before those already made.
use goodputlab.Prelude.{
  ℕ, ◌<◌, ◌≤◌, ◌≡◌, ◌⊎◌, ◌↔◌, inl, inr, refl, sym, ◌∙◌, subst, Bool, ◌&&◌, Option, none, some, List,
  [], ◌∷◌, ◌++◌, ◌==◌, leb, if◌then◌else◌, arith, Bool-cases, Option-cases,
}
use goodputlab.Prelude.Dict
use goodputlab.Prelude.Int.{pos}
use goodputlab.Prelude.Json.{Json, integer, text, arr, nil, cons, obj, Fields, end, field}
use goodputlab.Prelude.Result.{Result, ok, raise, value_error, eq_of_ok, raise_ne}
use goodputlab.Prelude.Text.{Text, Bytes, codes, decimal, text_discrete}
use goodputlab.Scripts.Proxy.{
  nothing, Call, Reached, failed, replied, Reply, document, plain, State, Outcome, get, Upstream,
}

-- `JSONResponse`
abbrev pub json_response : Json → ℕ → Reply
json_response content status = record {
  status_code = status;
  content = document content;
  media_type = some (codes "application/json");
  headers = [];
}

abbrev pub get_call : Text → Text → ℕ → Call
get_call base path timeout = record {
  method = get;
  url = base ++ path;
  payload = nothing;
  headers = [];
  timeout = timeout;
}

abbrev pub fields_of : List (Text × Json) → Fields
fields_of [] = end
fields_of ((k, v) ∷ d) = field k v (fields_of d)

unfoldable pub root : Reply
root =
    json_response
      (obj (
        field (codes "service") (text (codes "goodputlab-disagg-proxy")) (
          field (codes "endpoints")
            (arr (
              cons (text (codes "/v1/chat/completions")) (
                cons (text (codes "/v1/completions")) (
                  cons (text (codes "/v1/models"))
                    (cons (text (codes "/health")) (cons (text (codes "/metrics")) nil))))))
            end)))
      200

abbrev bad_listing : Upstream → Reply
bad_listing up =
    json_response
      (obj (
        field (codes "error") (text (codes "upstream_error")) (
          field (codes "pool") (text (codes "decode"))
            (field (codes "status") (integer (pos up.status_code)) end))))
      502

-- `/v1/models`; the JSON of a response is read with `parse`.
abbrev pub model_list : (Bytes → Option Json) → Reached → Result Reply
model_list parse (failed why) = ok (
    json_response
      (obj (
        field (codes "error") (text (codes "upstream_unavailable"))
          (field (codes "pool") (text (codes "decode")) (field (codes "detail") (text why) end))))
      502)
model_list parse (replied up) =
    if leb 400 up.status_code
    then ok (bad_listing up)
    else elim (parse up.content) [ none ↦ raise value_error | some v ↦ ok (json_response v 200) ]

-- The status of a probe, 0 where it failed.
abbrev pub probed : Reached → ℕ
probed (failed _) = 0
probed (replied up) = up.status_code

-- `decode_text` is the text of a response's content.
abbrev pub metrics_text : (Bytes → Text) → Text → Reached → Text
metrics_text decode_text label (failed why) =
    codes "# [" ++ (label ++ (codes "] upstream error: " ++ (why ++ 10 ∷ [])))
metrics_text decode_text label (replied up) =
    if up.status_code == 200
    then codes "# === [" ++ (label ++ (codes "] ===" ++ 10 ∷ decode_text up.content))
    else codes "# ["
      ++ (label ++ (codes "] upstream error status=" ++ (decimal up.status_code ++ 10 ∷ [])))

module _ (net : List Call → Reached) (state : State) where
  unfoldable pub models : (Bytes → Option Json) → List Call → Outcome
  models parse calls =
      let made = get_call state.decode_url (codes "/v1/models") 5 ∷ calls in
      (model_list parse (net made), made)

  abbrev pub check : Text → List Call → ℕ × List Call
  check url calls = let made = get_call url (codes "/health") 5 ∷ calls in (probed (net made), made)

  -- `dict(results)`
  abbrev pub statuses : ℕ → ℕ → List (Text × Json)
  statuses prefill decode =
      Dict.set text_discrete state.decode_url (integer (pos decode))
        ((state.prefill_url, integer (pos prefill)) ∷ [])

  abbrev pub health_reply : Bool → ℕ → ℕ → Reply
  health_reply all_ok prefill decode =
      json_response
        (obj (
          field (codes "status") (text (if all_ok then codes "ok" else codes "degraded")) (
            field (codes "upstreams") (obj (fields_of (statuses prefill decode)))
              (field (codes "served_model_name") (text state.served_model_name) end))))
        (if all_ok then 200 else 503)

  unfoldable pub health : List Call → Outcome
  unfolding Dict.set text_discrete
  health calls =
      let (prefill, first) = check state.prefill_url calls in
      let (decode, made) = check state.decode_url first in
      (ok (health_reply (prefill == 200 && decode == 200) prefill decode), made)

  unfoldable pub metrics : (Bytes → Text) → List Call → Outcome
  metrics decode_text calls =
      let first = get_call state.prefill_url (codes "/metrics") 10 ∷ calls in
      let made = get_call state.decode_url (codes "/metrics") 10 ∷ first in
      let prefill = metrics_text decode_text (codes "prefill") (net first) in
      let decode = metrics_text decode_text (codes "decode") (net made) in
      (
        ok (record {
          status_code = 200;
          content = plain (prefill ++ 10 ∷ decode);
          media_type = some (codes "text/plain; version=0.0.4");
          headers = [];
        }),
        made,
      )

-- An answer with status 200.
abbrev pub Answers200 : Reached → Type 0
Answers200 r = (up : Upstream) × (r ≡ replied up) × (up.status_code ≡ 200)

probed-Answers200 : (r : Reached) → (probed r ≡ 200) ↔ Answers200 r
probed-Answers200 (failed why) = ((λ h. absurd (omega (arith, h))), (λ (up, e, h). absurd cc))
probed-Answers200 (replied up) = ((λ h. (up, refl, h)), (λ (up2, e, h). cc))

-- A 502 for an error of the decode server, or a 200 with the JSON that it sent.
abbrev pub IsListing : (Bytes → Option Json) → Reached → Reply → Type 0
IsListing parse m r =
    ((r.status_code ≡ 502)
      × (((why : Text) × (m ≡ failed why))
          ⊎ ((up : Upstream) × (m ≡ replied up) × (400 ≤ up.status_code))))
    ⊎ ((r.status_code ≡ 200)
        × ((up : Upstream) × (m ≡ replied up)
            × (up.status_code < 400)
            × ((v : Json) × (parse up.content ≡ some v) × (r.content ≡ document v))))

model_list-IsListing :
    (parse : Bytes → Option Json) (m : Reached) (r : Reply)
    → model_list parse m ≡ ok r
    → IsListing parse m r
model_list-IsListing parse (failed why) r h =
    subst (IsListing parse (failed why)) (eq_of_ok h) (inl (refl, inl (why, refl)))
model_list-IsListing parse (replied up) r h = elim (Bool-cases (leb 400 up.status_code)) [
  | inl e ↦
      let eq : model_list parse (replied up) ≡ ok (bad_listing up) = rw e in
      subst (IsListing parse (replied up)) (eq_of_ok (sym eq ∙ h))
        (inl (refl, inr (up, refl, ground (arith, e))))
  | inr e ↦ elim (Option-cases (parse up.content)) [
    | inl a ↦
        let eq : model_list parse (replied up) ≡ raise value_error = rw (e, a) in
        absurd (raise_ne (sym eq ∙ h))
    | inr (v, a) ↦
        let eq : model_list parse (replied up) ≡ ok (json_response v 200) = rw (e, a) in
        subst (IsListing parse (replied up)) (eq_of_ok (sym eq ∙ h))
          (inr (refl, (up, refl, ground (arith, e), (v, a, refl))))
  ]
]

module _ (net : List Call → Reached) (state : State) where
  -- `/health` always answers, after one probe of the prefill server and then one of the decode
  -- server. It answers 200 exactly when both answered 200, and 503 otherwise.
  pub health-Answers200 :
      (calls : List Call)
      → let probe = get_call state.prefill_url (codes "/health") 5 ∷ calls in
        let probes = get_call state.decode_url (codes "/health") 5 ∷ probe in
        (r : Reply) × (health net state calls ≡ (ok r, probes))
        × ((r.status_code ≡ 200) ↔ (Answers200 (net probe) × Answers200 (net probes)))
        × ((r.status_code ≡ 200) ⊎ (r.status_code ≡ 503))
  unfolding health
  health-Answers200 calls =
      let probe = get_call state.prefill_url (codes "/health") 5 ∷ calls in
      let probes = get_call state.decode_url (codes "/health") 5 ∷ probe in
      let p = probed (net probe) in
      let d = probed (net probes) in
      let (p_to, p_of) = probed-Answers200 (net probe) in
      let (d_to, d_of) = probed-Answers200 (net probes) in
      (
        health_reply net state (p == 200 && d == 200) p d,
        refl,
        (
          (λ h. let both : (p ≡ 200) × (d ≡ 200) = ground (arith, h) in (p_to both.0, d_to both.1)),
          (λ h. let a = p_of h.0 in let b = d_of h.1 in ground (arith, a, b)),
        ),
        ground arith,
      )

  -- A reply of `/v1/models` has status 502 when the decode server could not be reached or answered
  -- with 400 or more, and otherwise status 200 and exactly the JSON that the server sent. It makes
  -- one call. (When a status below 400 comes with no JSON, an exception is raised.)
  models-IsListing :
      (parse : Bytes → Option Json) (calls : List Call) (r : Reply)
      → (models net state parse calls).0 ≡ ok r
      → let made = get_call state.decode_url (codes "/v1/models") 5 ∷ calls in
        IsListing parse (net made) r × ((models net state parse calls).1 ≡ made)
  unfolding models
  models-IsListing parse calls r h =
      let made = get_call state.decode_url (codes "/v1/models") 5 ∷ calls in
      (model_list-IsListing parse (net made) r h, refl)
