-- ===== src/Tests/Proxy.antt =====
-- The proxy between two servers that answer.
use goodputlab.Prelude.{◌≡◌, ◌⊎◌, ◌↔◌, Option, none, some, List, [], ◌∷◌, true}
use goodputlab.Prelude.Int.{pos}
use goodputlab.Prelude.Json.{Json, boolean, integer, text, obj, field, end}
use goodputlab.Prelude.Result.{ok}
use goodputlab.Prelude.Text.{Bytes, codes}
use goodputlab.Scripts.Proxy.{
  Body, Call, Reached, replied, State, default_args, Reply, lifespan, chat_completions, completions,
  request_id,
}
use goodputlab.Scripts.Proxy.Probes.{health, health-Answers200, Answers200, get_call}
use goodputlab.Scripts.Proxy.Stages.{IsStaged, completions-IsStaged}
use goodputlab.Tests.Loads.{loads}

abbrev state : State
state = lifespan default_args

abbrev handle : Json
handle = obj (field (codes "kv_transfer_params") (text (codes "h")) end)

-- Both servers answer 200.
abbrev net : List Call → Reached
net calls = replied (record { status_code = 200; content = []; content_type = none })

abbrev parse : Bytes → Option Json
parse content = some handle

abbrev body : Body
body = (codes "max_completion_tokens", integer (pos 64)) ∷ (codes "stream", boolean true) ∷ []

completions-IsStaged_example :
    IsStaged parse
      (λ b. b)
      loads
      net
      state
      (codes "/v1/chat/completions")
      (codes "gl-7")
      body
      []
      (chat_completions parse (λ b. b) loads net state none (codes "7") (ok body) [])
    × IsStaged parse
        (λ b. b)
        loads
        net
        state
        (codes "/v1/completions")
        (codes "gl-7")
        body
        []
        (completions parse (λ b. b) loads net state none (codes "7") (ok body) [])
unfolding request_id
completions-IsStaged_example =
    completions-IsStaged parse (λ b. b) loads net state none (codes "7") body []

abbrev probe : List Call
probe = get_call state.prefill_url (codes "/health") 5 ∷ []

abbrev probes : List Call
probes = get_call state.decode_url (codes "/health") 5 ∷ probe

health-Answers200_example :
    (r : Reply) × (health net state [] ≡ (ok r, probes))
    × ((r.status_code ≡ 200) ↔ (Answers200 (net probe) × Answers200 (net probes)))
    × ((r.status_code ≡ 200) ⊎ (r.status_code ≡ 503))
health-Answers200_example = health-Answers200 net state []
