-- ===== src/Proxy/Dispatch.antt =====
-- internal/transport/proxy/protocol.go. The handler of the MCP transport is a function; `probe` is
-- `json.Unmarshal` of a body into a `JsonrpcProbe`, `itoa` prints a status and `latency` is the time
-- since the start, in floating-point milliseconds. Metrics are left out.
pub mod Judged
use shield_agent.Prelude.{
  ℕ, ◌==◌, ◌||◌, Bool, true, false, not, Option, none, some, List, [], ◌∷◌, ◌++◌, Text, codes, ◌=ₜ◌,
  is_empty, to_lower, length, any, keep, ltb, if◌then◌else◌,
}
use shield_agent.Prelude.Result.{Result, ok, err}
use shield_agent.Auth.KeyStore.{KeyError}
use shield_agent.Auth.Middleware.{Crypto}
use shield_agent.Auth.HttpAuth.{Config, resolve_agent, hash_request}
use shield_agent.MessageLog.{ActionLog}
use shield_agent.Telemetry.{Event}
use shield_agent.Proxy.Detect
use shield_agent.Proxy.Detect.{
  Protocol, proto_auto, proto_mcp, proto_a2a, proto_http_api, JsonrpcProbe, detect_protocol,
}
use shield_agent.Proxy.Messages.{build_upstream_url, client_ip}
use shield_agent.Proxy.Http.{
  HttpRequest, UpstreamRequest, UpstreamResponse, Effect, http_error, write_header, write, forward,
  Network, read_limited, relayed_headers,
}
use shield_agent.Proxy.Cors.{set_cors_headers}

-- The store and the mode of `HTTPAuthDeps`; `has_db` and `has_recorder` tell whether these are given.
pub record HttpAuthDeps : Type 0 where
  pub store : Text → Result KeyError Text
  pub mode : Text
  pub has_db : Bool
  pub has_recorder : Bool

pub record Checked : Type 0 where
  pub status : Text
  pub agent_hash : Text
  pub refusal : Option Text

abbrev pub sig_header : Protocol → Text
sig_header proto_a2a = codes "X-A2A-Signature"
sig_header _ = codes "X-Agent-Signature"

abbrev pub config_of : HttpAuthDeps → Protocol → Config
config_of deps proto = record {
  store = deps.store;
  mode = deps.mode;
  agent_id_header = codes "X-Agent-ID";
  signature_header = sig_header proto;
}

abbrev pub is_closed : Text → Bool
unfolding ◌=ₜ◌
is_closed mode = mode =ₜ codes "closed"

abbrev pub is_strict : Text → Bool
unfolding ◌=ₜ◌
is_strict mode = mode =ₜ codes "closed" || mode =ₜ codes "verified"

abbrev pub failed : Text → Text → Text → Checked
failed mode agent_hash text = record {
  status = codes "failed";
  agent_hash = agent_hash;
  refusal = if is_strict mode then some text else none;
}

abbrev pub passed : Text → Text → Checked
passed status agent_hash = record { status = status; agent_hash = agent_hash; refusal = none }

abbrev pub unsigned : Text → Checked
unsigned mode = record {
  status = codes "unsigned";
  agent_hash = [];
  refusal = if is_closed mode then some (codes "unauthorized: signature required") else none;
}

module _ (c : Crypto) where
  unfoldable pub check_signature : Text → Text → Text → Text → Text → Text → Text → Checked
  unfolding hash_request ◌=ₜ◌
  check_signature mode agent_hash key sig_hex method path body = elim (c.hex_decode sig_hex) [
    | none ↦ failed mode agent_hash (codes "unauthorized: invalid signature encoding")
    | some sig ↦
        if c.verify key (hash_request c method path body) sig
        then passed (codes "verified") agent_hash
        else failed mode agent_hash (codes "unauthorized: signature verification failed")
  ]

  unfoldable pub check_auth : Option HttpAuthDeps → HttpRequest → Text → Protocol → Checked
  unfolding check_signature resolve_agent is_empty ◌=ₜ◌
  check_auth none r body proto = passed (codes "unsigned") []
  check_auth (some deps) r body proto =
      let agent_id = r.header (codes "X-Agent-ID") in
      let sig_hex = r.header (sig_header proto) in
      if is_empty agent_id || is_empty sig_hex
      then unsigned deps.mode
      else elim (resolve_agent (config_of deps proto) agent_id) [
        | err e ↦ failed deps.mode (c.agent_id_hash agent_id) (codes "unauthorized: unknown agent")
        | ok key ↦
            check_signature deps.mode (c.agent_id_hash agent_id) key sig_hex r.method r.path body
      ]

abbrev pub hop_by_hop : List Text
hop_by_hop =
    codes "connection"
    ∷ codes "keep-alive"
    ∷ codes "transfer-encoding"
    ∷ codes "te"
    ∷ codes "trailer"
    ∷ codes "upgrade"
    ∷ []

unfoldable pub copy_request_headers : List (Text × Text) → List (Text × Text)
unfolding to_lower ◌=ₜ◌
copy_request_headers headers =
    keep (λ (f : Text × Text). not (any (λ h. to_lower f.0 =ₜ h) hop_by_hop)) headers

abbrev pub or_unknown : Option JsonrpcProbe → Text
unfolding is_empty
or_unknown none = codes "unknown"
or_unknown (some p) = if is_empty p.method then codes "unknown" else p.method

unfoldable pub method_label : (Text → Option JsonrpcProbe) → Protocol → HttpRequest → Text → Text
unfolding is_empty
method_label probe proto_a2a r body = or_unknown (probe body)
method_label probe _ r body = r.method ++ b' ' ∷ r.path

unfoldable pub proto_http_error_code : (ℕ → Text) → ℕ → Text
proto_http_error_code itoa status = if ltb status 400 then [] else itoa status

-- The entry for the table and the event for the recorder, where these are given.
pub record Logged (F : Type 0) : Type 0 where
  pub entry : Option (ActionLog F)
  pub event : Option (Event F)

abbrev pub nothing_logged : {F : Type 0} → Logged F
nothing_logged = record { entry = none; event = none }

module _ {F : Type 0} (itoa : ℕ → Text) (latency : ℕ → ℕ → F) (probe : Text → Option JsonrpcProbe)
    (trim_space : Text → Text) where
  abbrev pub entry_of : HttpRequest → Text → Protocol → Checked → ℕ → ℕ → ℕ → ActionLog F
  unfolding method_label proto_http_error_code client_ip
  entry_of r body proto auth started now status = record {
    timestamp = now;
    agent_id_hash = auth.agent_hash;
    method = method_label probe proto r body;
    direction = codes "in";
    success = ltb status 400;
    latency_ms = latency started now;
    payload_size = length body;
    auth_status = auth.status;
    error_code = proto_http_error_code itoa status;
    ip_address = client_ip trim_space r.remote_addr (r.header (codes "X-Forwarded-For"));
    upstream_name = [];
    correlation_id = [];
  }

  abbrev pub event_of : ActionLog F → Event F
  event_of entry = record {
    agent_id_hash = entry.agent_id_hash;
    timestamp = entry.timestamp;
    method = entry.method;
    direction = codes "request";
    success = entry.success;
    latency_ms = entry.latency_ms;
    payload_size_bytes = entry.payload_size;
    auth_status = entry.auth_status;
    error_code = [];
  }

  unfoldable pub log_request :
      Option HttpAuthDeps → HttpRequest → Text → Protocol → Checked → ℕ → ℕ → ℕ → Logged F
  unfolding method_label proto_http_error_code client_ip
  log_request none r body proto auth started now status = nothing_logged
  log_request (some deps) r body proto auth started now status =
      let entry = entry_of r body proto auth started now status in
      if deps.has_db
      then record {
        entry = some entry;
        event = if deps.has_recorder then some (event_of entry) else none;
      }
      else nothing_logged

abbrev pub body_or_empty : Option Text → Text
body_or_empty none = []
body_or_empty (some body) = body

-- `ProtocolAwareHandler`
pub record ProtocolAwareHandler (S : Type 0) : Type 0 where
  pub mcp_handler : S → HttpRequest → S × List Effect
  pub upstream : Text
  pub protocol_hint : Protocol
  pub http_deps : Option HttpAuthDeps
  pub allowed_origins : List Text

abbrev pub http_request : (Text → Option Text) → Text → HttpRequest → Text → UpstreamRequest
unfolding copy_request_headers
http_request url_path upstream r body = record {
  method = r.method;
  url = build_upstream_url url_path upstream r.path r.raw_query;
  headers = copy_request_headers r.headers;
  body = some body;
}

abbrev pub relay_answer : UpstreamResponse → List Effect
relay_answer resp =
    relayed_headers resp.headers
    ++ write_header resp.status_code ∷ write (body_or_empty resp.body) ∷ []

abbrev pub headers_of : HttpRequest → Detect.Headers
headers_of r = record {
  a2a_signature = r.header (codes "X-A2A-Signature");
  mcp_session_id = r.header (codes "Mcp-Session-Id");
}

module _ {S F : Type 0} (c : Crypto) (net : Network) (url_path : Text → Option Text)
    (itoa : ℕ → Text) (latency : ℕ → ℕ → F) (probe : Text → Option JsonrpcProbe)
    (trim_space : Text → Text) (h : ProtocolAwareHandler S) (started now : ℕ) where
  unfoldable pub send_http : HttpRequest → Text → Protocol → Checked → List Effect × Logged F
  unfolding log_request copy_request_headers
  send_http r body proto auth =
      let req = http_request url_path h.upstream r body in
      if net.is_valid req
      then elim (net.answer req) [
        | none ↦ (forward req ∷ http_error 502 (codes "upstream unavailable") ∷ [], nothing_logged)
        | some resp ↦ (
          forward req ∷ relay_answer resp,
          log_request itoa latency probe trim_space h.http_deps r body proto auth started now
              resp.status_code,
        )
      ]
      else (http_error 502 (codes "upstream error") ∷ [], nothing_logged)

  unfoldable pub handle_http_protocol_with_body :
      HttpRequest → Text → Protocol → List Effect × Logged F
  unfolding check_auth send_http set_cors_headers
  handle_http_protocol_with_body r body proto =
      let cors = set_cors_headers r h.allowed_origins in
      let auth = check_auth c h.http_deps r body proto in
      elim auth.refusal [
        | some text ↦ (cors ++ http_error 401 text ∷ [], nothing_logged)
        | none ↦ let (effects, logged) = send_http r body proto auth in (cors ++ effects, logged)
      ]

  unfoldable pub handle_http_protocol : HttpRequest → Protocol → List Effect × Logged F
  unfolding handle_http_protocol_with_body read_limited
  handle_http_protocol r proto = elim (read_limited r.body) [
    | none ↦ (http_error 400 (codes "request read error") ∷ [], nothing_logged)
    | some body ↦ handle_http_protocol_with_body r body proto
  ]

  abbrev pub by_mcp : S → HttpRequest → (S × List Effect) × Logged F
  by_mcp s r = (h.mcp_handler s r, nothing_logged)

  abbrev pub by_http : S → List Effect × Logged F → (S × List Effect) × Logged F
  by_http s (effects, logged) = ((s, effects), logged)

  -- The downstream handler reads the body that was read here.
  unfoldable pub dispatch : S → HttpRequest → Text → Protocol → (S × List Effect) × Logged F
  unfolding handle_http_protocol_with_body
  dispatch s r body proto_a2a = by_http s (handle_http_protocol_with_body r body proto_a2a)
  dispatch s r body proto_http_api =
      by_http s (handle_http_protocol_with_body r body proto_http_api)
  dispatch s r body proto_auto = by_mcp s (record r { body = some body })
  dispatch s r body proto_mcp = by_mcp s (record r { body = some body })

  unfoldable pub serve_post : S → HttpRequest → Protocol → (S × List Effect) × Logged F
  unfolding handle_http_protocol dispatch detect_protocol read_limited
  serve_post s r proto_mcp = by_mcp s r
  serve_post s r proto_a2a = by_http s (handle_http_protocol r proto_a2a)
  serve_post s r proto_http_api = by_http s (handle_http_protocol r proto_http_api)
  serve_post s r proto_auto = elim (read_limited r.body) [
    | none ↦ ((s, http_error 400 (codes "request read error") ∷ []), nothing_logged)
    | some body ↦ dispatch s r body (detect_protocol probe (headers_of r) body)
  ]

  unfoldable pub serve_http : S → HttpRequest → (S × List Effect) × Logged F
  unfolding serve_post ◌=ₜ◌
  serve_http s r = if r.method =ₜ codes "POST" then serve_post s r h.protocol_hint else by_mcp s r
