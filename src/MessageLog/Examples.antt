-- ===== src/MessageLog/Examples.antt =====
-- The message log at two requests.
use shield_agent.Prelude.{
  ℕ, ◌-◌, ◌≡◌, refl, ap, true, false, none, some, List, [], ◌∷◌, ◌++◌, Text, codes, ◌=ₜ◌, arith,
  Option,
}
use shield_agent.Prelude.Int.{ℤ}
use shield_agent.Jsonrpc.{RpcId, Request, Response, version, marshal_id, is_notification, is_null}
use shield_agent.MessageLog.{
  ActionLog, MessageLog, Context, id_string, new_message_log, log_request, log_response,
}
use shield_agent.MessageLog.Pairing.{Call, asked, apply_all, log_response_pairs}

abbrev compact : Text → Option Text
compact t = some t

abbrev itoa : ℤ → Text
itoa _ = codes "0"

-- Milliseconds as a natural number
abbrev latency : ℕ → ℕ → ℕ
latency now start = now - start

abbrev nobody : Context
nobody = record { auth = none; correlation_id = [] }

abbrev id_of : Text → Option RpcId
id_of t = some (record { raw = t })

abbrev request : Text → Text → Request
request id method = record { jsonrpc = version; id = id_of id; method = method; params = [] }

abbrev response : Text → Response
response id = record { jsonrpc = version; id = id_of id; result = codes "{}"; error = none }

abbrev first_code : Text → ℕ
first_code [] = 0
first_code (c ∷ _) = c

abbrev start : MessageLog ℕ
start = new_message_log false true

abbrev between : List Call
between = asked nobody 5 (request (codes "2") (codes "tools/list")) ∷ []

log_response_pairs_example :
    let s =
      apply_all compact itoa 0 latency
        (log_request compact 0 nobody 3 start (request (codes "1") (codes "tools/call")))
        between in
    let s' = log_response itoa 0 (latency 9) compact nobody 9 s (response (codes "1")) in
    (log : ActionLog ℕ) × (s'.write_ch ≡ s.write_ch ++ log ∷ [])
    × (log.method ≡ codes "tools/call")
    × (log.latency_ms ≡ 6)
    × (s'.pending (codes "1") ≡ none)
unfolding id_string marshal_id is_notification is_null ◌=ₜ◌ apply_all
log_response_pairs_example =
    log_response_pairs compact itoa 0 latency start nobody nobody 3 9
      (request (codes "1") (codes "tools/call")) (response (codes "1")) between refl refl
      ((λ e. absurd (omega (arith, ap first_code e))), tt) (omega arith)
