-- ===== src/Pipeline/Examples.antt =====
-- Chains and pipelines at concrete inputs.
use shield_agent.Prelude.{
  ℕ, zero, suc, ◌+◌, ◌≡◌, refl, ◌↔◌, ◌<◌, All, length, false, true, none, some, List, [], ◌∷◌, Text,
  codes,
}
use shield_agent.Prelude.Result.{ok, err}
use shield_agent.Jsonrpc.{Request, Response, version}
use shield_agent.Chain.{Middleware, process_request, error_payload, passthrough}
use shield_agent.Chain.Stops.{StopsAt, process_request-StopsAt}
use shield_agent.Pipeline.{JsonReader, Written, eof, max_line, messages, pipeline_in}
use shield_agent.Pipeline.Answered.{answered, pipeline_in-messages}

-- A middleware that counts the requests and refuses every one from the second on.
abbrev one_only : Middleware ℕ Text
one_only = record {
  name = codes "one";
  process_request = λ s req. elim s [ zero ↦ (1, ok req) | suc n ↦ (n + 2, err (codes "no")) ];
  process_response = λ s resp. (s, ok resp);
}

abbrev items : List (Middleware ℕ Text)
items = passthrough ∷ one_only ∷ []

abbrev text : Text → Text
text t = t

abbrev marshal : Response → Text
marshal r = r.jsonrpc

abbrev ping : Request
ping = record { jsonrpc = version; id = none; method = codes "ping"; params = [] }

process_request-StopsAt_example :
    StopsAt text marshal items 1 ping 2 (error_payload text marshal ping (codes "no")) (codes "no")
unfolding process_request passthrough
process_request-StopsAt_example =
    process_request-StopsAt text marshal items 1 2 ping
      (error_payload text marshal ping (codes "no")) (codes "no") refl

abbrev nothing : Written
nothing = record { child = []; upstream = [] }

-- Every line is a request.
abbrev reader : JsonReader
reader = record {
  is_object = λ t. true;
  has_method = λ t. true;
  as_request = λ t. some ping;
  as_response = λ t. none;
}

abbrev lines : List Text
lines = codes "{}" ∷ codes "{}" ∷ []

pipeline_in-messages_example :
    let (ms, ending) = messages reader text false lines in
    (pipeline_in text marshal (λ _. true) (λ _. none) items 0 nothing ending ms
      ≡ (answered text marshal (λ _. true) (λ _. none) items 0 nothing ms, ending))
    × ((ending ≡ eof) ↔ ((false ≡ false) × All (λ (t : Text). length t < max_line) lines))
pipeline_in-messages_example =
    pipeline_in-messages text marshal (λ _. true) (λ _. none) items reader text 0 nothing false
      lines (λ _. refl)
