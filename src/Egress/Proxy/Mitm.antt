-- ===== src/Egress/Proxy/Mitm.antt =====
-- `handleMITM` of internal/egress/proxy.go. What the network answers in a round of its loop is an
-- `Exchange`; a middleware leaves the header map of a response in place.
use shield_agent.Prelude.{
  ◌&&◌, Bool, true, false, not, Option, none, some, List, [], ◌∷◌, ◌++◌, Text, codes, is_empty,
  length, if◌then◌else◌,
}
use shield_agent.Prelude.Int.{pos}
use shield_agent.Prelude.Result.{Result, ok, err}
use shield_agent.Egress.Headers.{lookup, remove_hop_by_hop_headers}
use shield_agent.Egress.{
  EgressRequest, EgressResponse, process_egress_request, process_egress_response,
}
use shield_agent.Egress.Proxy.{
  HttpResponse, Effect, reply, forward, first_value, keep_alive_response, failure, measured,
  after_request,
}
use shield_agent.Egress.Proxy.Setup.{Proxy, Externals, Exchange, after, stripped}

module _ {S E F : Type 0} (p : Proxy S E F) (ex : Externals S E F) where
  abbrev pub mitm_request : EgressRequest → Exchange F → Text → EgressRequest
  mitm_request req x body =
      let id = first_value (lookup (codes "X-Shield-Correlation-Id") x.client.headers) in
      record req {
        method = x.client.method ++ codes " " ++ x.client.request_uri;
        protocol = codes "mitm";
        correlation_id = if is_empty id then req.correlation_id else id;
        started_at = x.now;
        body = body;
      }

  abbrev pub blocked_as : EgressRequest → Text → EgressRequest
  blocked_as req failed = record req { policy_action = codes "block"; policy_rule = failed }

  abbrev pub mitm_response : Exchange F → Text → HttpResponse → Text → EgressResponse F
  mitm_response x body up up_body = record (failure x.latency_ms (pos up.status_code) []) {
    request_size = pos (length body);
    response_size = pos (length up_body);
    headers = up.headers;
    body = up_body;
  }

  -- The answer for the client, and whether the loop goes on.
  unfoldable pub mitm_answer :
      S → EgressRequest → Exchange F → Text → HttpResponse → Text → S × List (Effect F) × Bool
  unfolding process_egress_response remove_hop_by_hop_headers is_empty
  mitm_answer s req x body up up_body =
      let resp = mitm_response x body up up_body in
      let (s', answer) = process_egress_response p.items s req resp in
      let left = ex.response_left s' resp in
      let h = stripped ex left.headers in
      let kept = keep_alive_response (record up { headers = h }) in
      if x.sent
      then (
        s',
        reply up.status_code h left.body ∷ measured ex.seconds req left,
        not x.client.close && kept,
      )
      else (s', [], false)

  -- By whether the request is written and what comes back
  unfoldable pub mitm_replayed :
      S
      → EgressRequest
      → Exchange F
      → Text
      → Bool
      → Option (HttpResponse × Text)
      → S × List (Effect F) × Bool
  unfolding mitm_answer
  mitm_replayed s req x body false response = (s, [], false)
  mitm_replayed s req x body true none = (s, [], false)
  mitm_replayed s req x body true (some (up, up_body)) = mitm_answer s req x body up up_body

  unfoldable pub mitm_forward :
      Text → S → EgressRequest → Exchange F → Text → S × List (Effect F) × Bool
  unfolding mitm_replayed
  mitm_forward destination s req x body =
      let (s', effects, more) = mitm_replayed s req x body x.written x.response in
      (s', forward destination (stripped ex x.client.headers) body ∷ effects, more)

  -- Once the body is read, and once the chain has answered for it
  unfoldable pub mitm_judged :
      EgressRequest
      → Exchange F
      → Text
      → S
      → Result (Text × E) EgressRequest
      → S × List (Effect F) × Bool
  unfolding after_request mitm_forward
  mitm_judged req x body s (err (failed, e)) =
      let left = ex.left_as s (mitm_request req x body) in
      let (s', effects) =
        after_request p.items ex.seconds s (blocked_as left failed)
          (failure ex.zero_ms (pos 403) (ex.error e)) in
      (s', reply 403 [] [] ∷ effects, false)
  mitm_judged req x body s (ok updated) = mitm_forward req.destination s updated x body

  unfoldable pub mitm_read :
      S → EgressRequest → Exchange F → Option Text → S × List (Effect F) × Bool
  unfolding process_egress_request mitm_judged is_empty
  mitm_read s req x none = (s, [], false)
  mitm_read s req x (some body) =
      let (s', answer) = process_egress_request p.items s (mitm_request req x body) in
      mitm_judged req x body s' answer

  -- One round
  unfoldable pub mitm_exchange : S → EgressRequest → Exchange F → S × List (Effect F) × Bool
  unfolding mitm_read
  mitm_exchange s req x = mitm_read s req x x.body

  unfoldable pub mitm_loop : S → EgressRequest → List (Exchange F) → S × List (Effect F)
  unfolding mitm_exchange
  mitm_loop s req [] = (s, [])
  mitm_loop s req (x ∷ exchanges) =
      let (s', effects, more) = mitm_exchange s req x in
      let rest = mitm_loop s' req exchanges in if more then after effects rest else (s', effects)

  -- The errors of the two handshakes, and the rounds.
  unfoldable pub handle_mitm :
      S → EgressRequest → Option Text → Option Text → List (Exchange F) → S × List (Effect F)
  unfolding after_request mitm_loop
  handle_mitm s req handshake dial exchanges = elim handshake [
    | some e ↦
        after_request p.items ex.seconds s req
          (failure ex.zero_ms (pos 0) (codes "mitm handshake: " ++ e))
    | none ↦ elim dial [
      | some e ↦
          after_request p.items ex.seconds s req
            (failure ex.zero_ms (pos 0) (codes "mitm dial: " ++ e))
      | none ↦ mitm_loop s req exchanges
    ]
  ]
