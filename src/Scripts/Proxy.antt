-- ===== src/Scripts/Proxy.antt =====
-- scripts/disagg_proxy.py: the routes of the proxy. A handler takes the calls made so far, the
-- latest first, and returns its outcome with the calls made at its end. What the upstream servers
-- answer is a function of the calls up to the one that is answered. Decoding of texts and of JSON
-- is a parameter. A body is a JSON object.
mod Messages
pub mod Bodies
pub mod Stages
pub mod Probes
pub use Messages.{
  Namespace, default_args, State, Body, Method, Payload, Call, Upstream, Reached, Content, Reply,
  request_id_header, id_headers, handshake, one, cap_completion, value_of, Sentinel, occurs,
  compare_token, first_token, inspect, excused, passed_on, Outcome, upstream, is_streaming,
  kv_params, get, post, stream, nothing, raw, json, failed, replied, buffered, document, plain,
  relay, off, no_choices, mismatch, matching, no_token, unparsed,
}
unfoldable pub use Messages.{
  prefill_url, decode_url, lifespan, request_id, prefill_body, decode_body,
  maybe_assert_first_token,
}
use goodputlab.Prelude.{
  ℕ, ◌+◌, Bool, true, false, not, ◌&&◌, Option, none, some, List, [], ◌∷◌, ◌++◌, ◌==◌, leb,
  if◌then◌else◌,
}
use goodputlab.Prelude.Dict
use goodputlab.Prelude.Json.{
  Json, null, boolean, integer, text, arr, nil, obj, Fields, end, field, truthy, get_or, first,
  or_else,
}
use goodputlab.Prelude.Int.{pos}
use goodputlab.Prelude.Result.{
  Error, Result, ok, raise, value_error, key_error, index_error, http_error, attribute_error,
  type_error, ◌>>=◌,
}
use goodputlab.Prelude.Text.{Text, Bytes, codes, decimal, starts_with, text_discrete}

-- `_forward`, which passes on a body as it is, and the header of authorization if there is one.
abbrev pub forward_call : Text → Text → Bytes → Option Text → Text → ℕ → Call
forward_call url path body auth ident timeout = record {
  method = post;
  url = url ++ path;
  payload = raw body;
  headers = id_headers ident ++ elim auth [
    | none ↦ []
    | some [] ↦ []
    | some (c ∷ s) ↦ (codes "authorization", c ∷ s) ∷ []
  ];
  timeout = timeout;
}

unfoldable pub forward :
    (List Call → Reached) → Text → Text → Bytes → Option Text → Text → ℕ → List Call → Outcome
forward net url path body auth ident timeout calls =
    let made = forward_call url path body auth ident timeout ∷ calls in
    ((do up ← upstream (net made); ok (passed_on up ident)), made)

module _ (state : State) where
  abbrev pub decode_call : Method → Text → Body → Text → Call
  decode_call method path body ident = record {
    method = method;
    url = state.decode_url ++ path;
    payload = json body;
    headers = id_headers ident;
    timeout = 300;
  }

  abbrev pub streamed_decode : Text → Body → Text → Reply
  streamed_decode path body ident = record {
    status_code = 200;
    content = relay (decode_call stream path body ident);
    media_type = some (codes "text/event-stream");
    headers = id_headers ident;
  }

  abbrev pub prefill_call : Text → Body → Text → Call
  prefill_call path body ident = record {
    method = post;
    url = state.prefill_url ++ path;
    payload = json (prefill_body body);
    headers = id_headers ident;
    timeout = 120;
  }

module _ (parse : Bytes → Option Json) (decode : Bytes → Text) (loads : Text → Option Json)
    (net : List Call → Reached) (state : State) where
  -- The decode call of a client that does not stream.
  abbrev pub buffered_decode : Text → Body → Text → List Call → Outcome
  buffered_decode path body ident calls =
      let made = decode_call state post path body ident ∷ calls in
      let reply = do
        up ← upstream (net made)
        _ ← maybe_assert_first_token loads state.assert_first_token (decode up.content) path
        ok (passed_on up ident)
      in (reply, made)

  unfoldable pub run_decode : Text → Body → Bytes → Text → List Call → Outcome
  unfolding decode_body truthy Dict.lookup text_discrete maybe_assert_first_token
  run_decode path body content ident calls = elim (decode_body parse body content) [
    | raise e ↦ (raise e, calls)
    | ok next ↦
        if is_streaming body
        then (ok (streamed_decode state path next ident), calls)
        else buffered_decode path next ident calls
  ]

  -- Both completion routes, which differ in the path.
  abbrev pub two_stages : Text → Text → Body → List Call → Outcome
  two_stages path ident body calls =
      let made = prefill_call state path body ident ∷ calls in
      elim (net made) [
        | failed _ ↦ (raise http_error, made)
        | replied up ↦
            if leb 400 up.status_code
            then (ok (passed_on up ident), made)
            else run_decode path body up.content ident made
      ]

  -- `incoming` is the header of the request, `minted` the fresh identifier.
  unfoldable pub chat_completions : Option Text → Text → Result Body → List Call → Outcome
  unfolding request_id prefill_body run_decode
  chat_completions incoming minted (raise e) calls = (raise e, calls)
  chat_completions incoming minted (ok body) calls =
      two_stages (codes "/v1/chat/completions") (request_id incoming minted) body calls

  unfoldable pub completions : Option Text → Text → Result Body → List Call → Outcome
  unfolding request_id prefill_body run_decode
  completions incoming minted (raise e) calls = (raise e, calls)
  completions incoming minted (ok body) calls =
      two_stages (codes "/v1/completions") (request_id incoming minted) body calls
