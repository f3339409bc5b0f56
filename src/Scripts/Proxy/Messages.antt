-- ===== src/Scripts/Proxy/Messages.antt =====
-- scripts/disagg_proxy.py: the state of the proxy, its calls and replies, the bodies it sends, and
-- the comparison of the first token.
use goodputlab.Prelude.{
  ℕ, Bool, true, false, Option, none, some, List, [], ◌∷◌, ◌++◌, if◌then◌else◌,
}
use goodputlab.Prelude.Dict
use goodputlab.Prelude.Json.{
  Json, null, boolean, integer, text, arr, nil, obj, end, field, truthy, get_or, first, or_else,
}
use goodputlab.Prelude.Int.{pos}
use goodputlab.Prelude.Result.{
  Result, ok, raise, value_error, key_error, index_error, http_error, attribute_error, ◌>>=◌,
}
use goodputlab.Prelude.Text.{Text, Bytes, codes, decimal, starts_with, text_discrete}

-- The parsed arguments that the routes read.
pub record Namespace : Type 0 where
  pub prefiller_host : Text
  pub prefiller_port : ℕ
  pub decoder_host : Text
  pub decoder_port : ℕ
  pub served_model_name : Text
  pub assert_first_token_matches : Text

abbrev pub default_args : Namespace
default_args = record {
  prefiller_host = codes "vllm-disagg-prefill";
  prefiller_port = 8100;
  decoder_host = codes "vllm-disagg-decode";
  decoder_port = 8200;
  served_model_name = codes "goodputlab-model";
  assert_first_token_matches = [];
}

unfoldable pub prefill_url : Namespace → Text
prefill_url args =
    codes "http://" ++ (args.prefiller_host ++ (codes ":" ++ decimal args.prefiller_port))

unfoldable pub decode_url : Namespace → Text
decode_url args = codes "http://" ++ (args.decoder_host ++ (codes ":" ++ decimal args.decoder_port))

-- `app.state`
pub record State : Type 0 where
  pub prefill_url : Text
  pub decode_url : Text
  pub served_model_name : Text
  pub assert_first_token : Text

unfoldable pub lifespan : Namespace → State
unfolding prefill_url decode_url
lifespan args = record {
  prefill_url = prefill_url args;
  decode_url = decode_url args;
  served_model_name = args.served_model_name;
  assert_first_token = args.assert_first_token_matches;
}

abbrev pub Body : Type 0
Body = List (Text × Json)

pub data Method : Type 0 where
  get post stream : Method

pub data Payload : Type 0 where
  nothing : Payload
  raw : Bytes → Payload
  json : Body → Payload

pub record Call : Type 0 where
  pub method : Method
  pub url : Text
  pub payload : Payload
  pub headers : List (Text × Text)
  pub timeout : ℕ

pub record Upstream : Type 0 where
  pub status_code : ℕ
  pub content : Bytes
  pub content_type : Option Text

-- `httpx.HTTPError` with its text, or a response.
pub data Reached : Type 0 where
  failed : Text → Reached
  replied : Upstream → Reached

-- A streamed content is that of a call, made when the body is sent.
pub data Content : Type 0 where
  buffered : Bytes → Content
  document : Json → Content
  plain : Text → Content
  relay : Call → Content

pub record Reply : Type 0 where
  pub status_code : ℕ
  pub content : Content
  pub media_type : Option Text
  pub headers : List (Text × Text)

abbrev pub request_id_header : Text
request_id_header = codes "X-Request-Id"

-- The second argument is the identifier that `uuid4` gives.
unfoldable pub request_id : Option Text → Text → Text
request_id none minted = codes "gl-" ++ minted
request_id (some []) minted = codes "gl-" ++ minted
request_id (some (c ∷ s)) minted = c ∷ s

abbrev pub id_headers : Text → List (Text × Text)
id_headers ident = (request_id_header, ident) ∷ []

abbrev pub handshake : Json
handshake = obj (
    field (codes "do_remote_decode") (boolean true) (
      field (codes "do_remote_prefill") (boolean false) (
        field (codes "remote_engine_id") null (
          field (codes "remote_block_ids") null
            (field (codes "remote_host") null (field (codes "remote_port") null end))))))

abbrev pub one : Json
one = integer (pos 1)

abbrev pub cap_completion : Body → Body
cap_completion b =
    if Dict.contains text_discrete (codes "max_completion_tokens") b
    then Dict.set text_discrete (codes "max_completion_tokens") one b
    else b

unfoldable pub prefill_body : Body → Body
unfolding Dict.set Dict.contains Dict.remove text_discrete
prefill_body body =
    let capped = cap_completion (Dict.set text_discrete (codes "max_tokens") one body) in
    let unary = Dict.set text_discrete (codes "stream") (boolean false) capped in
    Dict.set text_discrete (codes "kv_transfer_params") handshake
      (Dict.remove text_discrete (codes "stream_options") unary)

abbrev pub value_of : Option Json → Json
value_of none = null
value_of (some v) = v

-- What the comparison of the first token logs.
pub data Sentinel : Type 0 where
  off no_choices mismatch matching no_token unparsed : Sentinel

-- Whether `p` occurs in `s`.
abbrev pub occurs : Text → Text → Bool
occurs p [] = starts_with p []
occurs p (c ∷ s) = elim (starts_with p (c ∷ s)) [ true ↦ true | false ↦ occurs p s ]

-- `first_token.startswith(expected)`, which only a text has.
abbrev pub compare_token : Text → Json → Result Sentinel
compare_token expected (text s) = ok (if starts_with expected s then matching else mismatch)
compare_token expected _ = raise attribute_error

abbrev pub first_token : Text → Json → Result Json
first_token path choice =
    let message = get_or (codes "message") (obj end) choice in
    if occurs (codes "/chat/completions") path
    then message >>= get_or (codes "content") (text [])
    else get_or (codes "text") (text []) choice

abbrev pub inspect : Text → Text → Json → Result Sentinel
inspect expected path payload = do
  found ← get_or (codes "choices") null payload
  let choices = or_else found (arr nil)
  let go = do
    choice ← first choices
    token ← first_token path choice
    if truthy token then compare_token expected token else ok no_token
  if truthy choices then go else ok no_choices

-- `except (ValueError, KeyError, IndexError)`
abbrev pub excused : Result Sentinel → Result Sentinel
excused (raise value_error) = ok unparsed
excused (raise key_error) = ok unparsed
excused (raise index_error) = ok unparsed
excused r = r

abbrev pub passed_on : Upstream → Text → Reply
passed_on up ident = record {
  status_code = up.status_code;
  content = buffered up.content;
  media_type = up.content_type;
  headers = id_headers ident;
}

abbrev pub Outcome : Type 0
Outcome = Result Reply × List Call

-- The response to the latest call; outside a `try` its failure goes through.
abbrev pub upstream : Reached → Result Upstream
upstream (failed _) = raise http_error
upstream (replied up) = ok up

abbrev pub is_streaming : Body → Bool
is_streaming body = truthy (value_of (Dict.lookup text_discrete (codes "stream") body))

module _ (parse : Bytes → Option Json) where
  abbrev pub kv_params : Bytes → Result Json
  kv_params content = elim (parse content) [
    | none ↦ ok null
    | some v ↦ get_or (codes "kv_transfer_params") null v
  ]

  unfoldable pub decode_body : Body → Bytes → Result Body
  unfolding truthy get_or Dict.set text_discrete
  decode_body body content = do
    params ← kv_params content
    ok (
        if truthy params
        then Dict.set text_discrete (codes "kv_transfer_params") params body
        else body)

module _ (loads : Text → Option Json) where
  unfoldable pub maybe_assert_first_token : Text → Text → Text → Result Sentinel
  unfolding truthy get_or first
  maybe_assert_first_token [] content path = ok off
  maybe_assert_first_token (c ∷ s) content path = elim (loads content) [
    | none ↦ ok unparsed
    | some payload ↦ excused (inspect (c ∷ s) path payload)
  ]
