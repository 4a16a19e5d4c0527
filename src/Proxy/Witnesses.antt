-- ===== src/Proxy/Witnesses.antt =====
-- The transports at concrete requests: a chain of one middleware that refuses what says no.
use shield_agent.Prelude.{
  ℕ, suc, ◌≡◌, refl, ◌↔◌, inl, true, Option, none, some, [], ◌∷◌, Text, codes, ◌=ₜ◌, if◌then◌else◌,
  arith,
}
use shield_agent.Prelude.Scanner.{drop_cr}
use shield_agent.Prelude.Result.{ok, err}
use shield_agent.Jsonrpc.{Request, Response, version}
use shield_agent.AuthResult.{AuthResult}
use shield_agent.Chain.{Middleware}
use shield_agent.Auth.Middleware.{Crypto}
use shield_agent.Proxy.Detect.{proto_auto, proto_a2a, JsonrpcProbe}
use shield_agent.Proxy.Messages.{Json, Items, apply_response}
use shield_agent.Proxy.Http.{HttpRequest, UpstreamRequest, UpstreamResponse, Network}
use shield_agent.Proxy.Sse.{SseEvent, relay_lines}
use shield_agent.Proxy.Sse.Relayed.{
  read_stream, joined, upstream_lines, always, answers, read_stream-relay_lines,
}
use shield_agent.Proxy.Streamable.{mcp_request, handle_mcp}
use shield_agent.Proxy.Accepted.{sent_upstream, Passes, handle_mcp-sends_iff}
use shield_agent.Proxy.Dispatch.{HttpAuthDeps, ProtocolAwareHandler, check_auth}
use shield_agent.Proxy.Dispatch.Judged.{MayPass, check_auth-strict_iff}

abbrev request_of : Text → Request
request_of body = record { jsonrpc = version; id = none; method = body; params = [] }

abbrev response_of : Text → Response
response_of body = record { jsonrpc = version; id = none; result = body; error = none }

abbrev json : Json
json = record {
  is_object = λ body. true;
  has_field = λ body field. true;
  as_request = λ body. some (request_of body);
  as_response = λ body. some (response_of body);
  marshal_request = λ req. some req.method;
  marshal_response = λ resp. some resp.result;
  marshal = λ resp. [];
}

abbrev refusal : Text → Text
refusal message = message

abbrev naysayer : Middleware ℕ Text
naysayer = record {
  name = codes "naysayer";
  process_request =
      λ s req. if req.method =ₜ codes "no" then (s, err (codes "refused")) else (suc s, ok req);
  process_response =
      λ s resp. if resp.result =ₜ codes "no" then (s, err (codes "refused")) else (suc s, ok resp);
}

abbrev chain : Items ℕ Text
chain = some (naysayer ∷ [])

abbrev hi : SseEvent
hi = record { typ = codes "message"; content = codes "hi" }

abbrev no_no : SseEvent
no_no = record { typ = []; content = codes "no" }

-- Of two events one is refused.
read_stream-relay_lines_example :
    read_stream (
      joined
        (relay_lines refusal json chain
          (codes "http://up")
          (codes "id")
          always
          0
          (record { upstream_msg_url = []; events = [] })
          (upstream_lines (hi ∷ no_no ∷ []))).1.events)
    ≡ (answers refusal json chain (codes "http://up") (codes "id") 0 (hi ∷ no_no ∷ [])).1
unfolding apply_response drop_cr ◌=ₜ◌
read_stream-relay_lines_example =
    read_stream-relay_lines refusal json chain (codes "http://up") (codes "id") 0 []
      (hi ∷ no_no ∷ []) ((refl, λ e. cc), ((refl, λ e. cc), tt))
      (
        (omega arith, refl),
        (
          (omega arith, refl),
          ((omega arith, refl), ((omega arith, refl), ((omega arith, refl), tt))),
        ),
      )
      (omega arith)

abbrev header_of : Text → Text
header_of name = if name =ₜ codes "X-A2A-Signature" then codes "x" else []

abbrev post : HttpRequest
post = record {
  method = codes "POST";
  path = codes "/mcp";
  raw_query = [];
  session_id = [];
  remote_addr = codes "10.0.0.1:5000";
  header = header_of;
  headers = [];
  body = some (codes "hi");
}

abbrev accepted : UpstreamResponse
accepted = record { status_code = 202; content_type = []; headers = []; body = some []; lines = [] }

abbrev net : Network
net = record { is_valid = λ req. true; answer = λ req. some accepted }

abbrev no_path : Text → Option Text
no_path url = some []

abbrev as_is : Text → Text
as_is t = t

abbrev keep_state : AuthResult → ℕ → ℕ
keep_state note s = s

abbrev forwarded : UpstreamRequest
forwarded = mcp_request no_path (codes "http://up") post (codes "hi")

handle_mcp-sends_iff_example :
    (sent_upstream
        (handle_mcp no_path
          (codes "http://up")
          refusal
          json
          chain
          net
          keep_state
          as_is
          (codes "*" ∷ [])
          0
          post).1
      ≡ forwarded ∷ [])
    ↔ ((out : Text) × Passes refusal json chain no_path
          (codes "http://up")
          net
          keep_state
          as_is
          (codes "*" ∷ [])
          0
          post
          out
        × (forwarded ≡ mcp_request no_path (codes "http://up") post out)
        × (net.is_valid forwarded ≡ true))
handle_mcp-sends_iff_example =
    handle_mcp-sends_iff refusal json chain no_path (codes "http://up") net keep_state as_is
      (codes "*" ∷ []) 0 post forwarded refl

abbrev crypto : Crypto
crypto = record {
  agent_id_hash = λ id. id;
  sha256 = λ t. t;
  hex_decode = λ t. some t;
  verify = λ key hash sig. key =ₜ sig;
}

abbrev deps : Text → HttpAuthDeps
deps mode = record {
  store = λ agent_id. ok agent_id;
  mode = mode;
  has_db = true;
  has_recorder = true;
}

check_auth-strict_iff_example :
    ((check_auth crypto (some (deps (codes "closed"))) post (codes "hi") proto_a2a).refusal ≡ none)
    ↔ MayPass crypto (deps (codes "closed")) post (codes "hi") proto_a2a
check_auth-strict_iff_example =
    check_auth-strict_iff crypto (deps (codes "closed")) post (codes "hi") proto_a2a (inl refl)

abbrev no_probe : Text → Option JsonrpcProbe
no_probe body = none

abbrev no_digits : ℕ → Text
no_digits n = []

abbrev elapsed : ℕ → ℕ → ℕ
elapsed started now = now

-- The transport behind refuses everything.
abbrev handler : ProtocolAwareHandler ℕ
handler = record {
  mcp_handler = λ s r. (s, []);
  upstream = codes "http://up";
  protocol_hint = proto_auto;
  http_deps = some (deps (codes "verified"));
  allowed_origins = [];
}
