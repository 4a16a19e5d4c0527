-- ===== src/Egress/Proxy/Http.antt =====
-- `handleHTTP` of internal/egress/proxy.go.
use shield_agent.Prelude.{ℕ, List, [], ◌∷◌, ◌++◌, Text, codes, ◌=ₜ◌, is_empty, if◌then◌else◌}
use shield_agent.Prelude.Int.{pos}
use shield_agent.Prelude.Result.{Result, ok, err}
use shield_agent.Egress.Headers.{Header, remove_hop_by_hop_headers}
use shield_agent.Egress.{EgressRequest, EgressResponse, process_egress_request}
use shield_agent.Egress.Proxy.{
  HttpRequest, Effect, reply, forward, split_host_port, or_default_port, failure, after_request,
  reject,
}
use shield_agent.Egress.Proxy.Setup.{Proxy, Externals, Upstream, after, stripped}

module _ {S E F : Type 0} (p : Proxy S E F) (ex : Externals S E F) where
  unfoldable pub http_request : ℕ → HttpRequest → EgressRequest
  unfolding split_host_port ◌=ₜ◌
  http_request now r =
      let (host, given) = split_host_port ex.split_addr ex.atoi r.url_host in
      let port = or_default_port r.scheme given in
      record {
        destination = ex.join_addr host port;
        host = host;
        port = port;
        method = r.method ++ codes " " ++ r.request_uri;
        protocol = codes "http";
        provider = p.detect host;
        started_at = now;
        body = [];
        policy_action = [];
        policy_rule = [];
        correlation_id = [];
      }

  abbrev pub http_response : HttpRequest → Upstream F → EgressResponse F
  http_response r up = record (failure up.latency_ms (pos up.response.status_code) []) {
    request_size = r.content_length;
    response_size = up.copied;
    headers = stripped ex up.response.headers;
  }

  abbrev pub relayed :
      S → HttpRequest → EgressRequest → Result Text (Upstream F) → S × List (Effect F)
  relayed s r req (err detail) =
      after (reply 502 [] (codes "bad gateway") ∷ [])
        (after_request p.items ex.seconds s req (failure ex.zero_ms (pos 0) detail))
  relayed s r req (ok up) =
      after (reply up.response.status_code (stripped ex up.response.headers) up.body ∷ [])
        (after_request p.items ex.seconds s req (http_response r up))

  -- `send` is `client.Do`, by the host of the URL and the headers.
  unfoldable pub handle_http :
      ℕ → (Text → Header → Result Text (Upstream F)) → S → HttpRequest → S × List (Effect F)
  unfolding process_egress_request reject after_request is_empty http_request
      remove_hop_by_hop_headers
  handle_http now send s r =
      let req = http_request now r in
      let out = stripped ex r.headers in
      if is_empty r.scheme
      then (s, reply 400 [] (codes "proxy: absolute URI required") ∷ [])
      else let (s', answer) = process_egress_request p.items s req in
        elim answer [
          | err (failed, e) ↦
              reject p.items ex.seconds ex.left_as ex.is_log_write_failed ex.error ex.zero_ms s' req
                failed e
          | ok updated ↦
              after (forward r.url_host out r.body ∷ [])
                (relayed s' r updated (send r.url_host out))
        ]
