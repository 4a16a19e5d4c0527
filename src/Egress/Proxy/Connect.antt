-- ===== src/Egress/Proxy/Connect.antt =====
-- `handleConnect` and `ServeHTTP` of internal/egress/proxy.go. What the network answers is in the
-- arguments.
use shield_agent.Prelude.{
  ℕ, Option, none, some, List, [], ◌∷◌, ◌++◌, Text, codes, ◌=ₜ◌, if◌then◌else◌,
}
use shield_agent.Prelude.Int.{pos}
use shield_agent.Prelude.Result.{Result, ok, err}
use shield_agent.Egress.Headers.{Header}
use shield_agent.Egress.{EgressRequest, process_egress_request}
use shield_agent.Egress.Proxy.{
  HttpRequest, Effect, reply, established, tunnel, split_host_port, should_mitm, failure,
  after_request, reject,
}
use shield_agent.Egress.Proxy.Setup.{
  Proxy, Externals, Upstream, Hijack, unsupported, hijack_failed, hijacked, Tunnel, Exchange, after,
}
use shield_agent.Egress.Proxy.Http.{handle_http}
use shield_agent.Egress.Proxy.Mitm.{handle_mitm}

module _ {S E F : Type 0} (p : Proxy S E F) (ex : Externals S E F) where
  unfoldable pub connect_request : ℕ → HttpRequest → EgressRequest
  unfolding split_host_port
  connect_request now r =
      let (host, port) = split_host_port ex.split_addr ex.atoi r.host in
      record {
        destination = r.host;
        host = host;
        port = port;
        method = codes "CONNECT " ++ r.host;
        protocol = codes "https";
        provider = p.detect host;
        started_at = now;
        body = [];
        policy_action = [];
        policy_rule = [];
        correlation_id = [];
      }

  abbrev pub piped : S → EgressRequest → Text → Result Text (Tunnel F) → S × List (Effect F)
  piped s req destination (err e) =
      after (reply 502 [] [] ∷ [])
        (after_request p.items ex.seconds s req (failure ex.zero_ms (pos 0) (codes "dial: " ++ e)))
  piped s req destination (ok t) = after (tunnel destination ∷ []) (
      after_request p.items ex.seconds s req (record (failure t.latency_ms (pos 0) []) {
        request_size = t.sent;
        response_size = t.received;
      }))

  -- After `handleConnect` has written its 200
  abbrev pub connected :
      S
      → EgressRequest
      → Text
      → Text
      → Option Text
      → Option Text
      → List (Exchange F)
      → Result Text (Tunnel F)
      → S × List (Effect F)
  connected s req host destination handshake dial_tls exchanges dialled =
      if should_mitm p.minter p.mitm_hosts host
      then handle_mitm p ex s req handshake dial_tls exchanges
      else piped s req destination dialled

  abbrev pub hijacked_as : S → EgressRequest → Hijack → S × List (Effect F) → S × List (Effect F)
  hijacked_as s req unsupported rest =
      (s, reply 500 [] (codes "proxy: hijacking not supported") ∷ [])
  hijacked_as s req hijack_failed rest = (s, [])
  hijacked_as s req (hijacked (some e)) rest =
      after_request p.items ex.seconds s req (failure ex.zero_ms (pos 0) (codes "write200: " ++ e))
  hijacked_as s req (hijacked none) rest = after (established ∷ []) rest

  unfoldable pub handle_connect :
      ℕ
      → Hijack
      → Option Text
      → Option Text
      → List (Exchange F)
      → Result Text (Tunnel F)
      → S
      → HttpRequest
      → S × List (Effect F)
  unfolding process_egress_request reject handle_mitm after_request should_mitm connect_request
  handle_connect now hijack handshake dial_tls exchanges dialled s r =
      let req = connect_request now r in
      let host = req.host in
      let (s', answer) = process_egress_request p.items s req in
      elim answer [
        | err (failed, e) ↦
            reject p.items ex.seconds ex.left_as ex.is_log_write_failed ex.error ex.zero_ms s' req
              failed e
        | ok updated ↦
            hijacked_as s' updated hijack
              (connected s' updated host r.host handshake dial_tls exchanges dialled)
      ]

  -- `ServeHTTP`
  unfoldable pub serve_proxy :
      ℕ
      → (Text → Header → Result Text (Upstream F))
      → Hijack
      → Option Text
      → Option Text
      → List (Exchange F)
      → Result Text (Tunnel F)
      → S
      → HttpRequest
      → S × List (Effect F)
  unfolding handle_connect handle_http ◌=ₜ◌
  serve_proxy now send hijack handshake dial_tls exchanges dialled s r =
      if r.method =ₜ codes "CONNECT"
      then handle_connect now hijack handshake dial_tls exchanges dialled s r
      else handle_http p ex now send s r
