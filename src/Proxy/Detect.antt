-- ===== src/Proxy/Detect.antt =====
-- internal/transport/proxy/detect.go. `probe` is `json.Unmarshal` of a body into a `JsonrpcProbe`,
-- `none` where it fails; a header that is absent is the empty text.
use shield_agent.Prelude.{
  ◌≡◌, refl, Bool, not, Option, none, some, List, [], ◌∷◌, Text, codes, ◌=ₜ◌, is_empty, ◌||◌,
  if◌then◌else◌, any,
}
use shield_agent.Jsonrpc.{version}

pub data Protocol : Type 0 where
  proto_auto proto_mcp proto_a2a proto_http_api : Protocol

unfoldable pub protocol_string : Protocol → Text
protocol_string proto_auto = codes "auto"
protocol_string proto_mcp = codes "mcp"
protocol_string proto_a2a = codes "a2a"
protocol_string proto_http_api = codes "http"

abbrev pub a2a_methods : List Text
a2a_methods =
    codes "tasks/send"
    ∷ codes "tasks/get"
    ∷ codes "tasks/cancel"
    ∷ codes "tasks/sendSubscribe"
    ∷ codes "tasks/resubscribe"
    ∷ codes "tasks/pushNotification/set"
    ∷ codes "tasks/pushNotification/get"
    ∷ []

unfoldable pub is_a2a_method : Text → Bool
is_a2a_method method = any (λ m. method =ₜ m) a2a_methods

pub record JsonrpcProbe : Type 0 where
  pub jsonrpc : Text
  pub method : Text

pub record Headers : Type 0 where
  pub a2a_signature : Text
  pub mcp_session_id : Text

abbrev pub by_method : Option JsonrpcProbe → Protocol
unfolding is_a2a_method
by_method none = proto_http_api
by_method (some p) =
    if not (p.jsonrpc =ₜ version) || is_empty p.method
    then proto_http_api
    else if is_a2a_method p.method
    then proto_a2a
    else proto_mcp

unfoldable pub detect_protocol : (Text → Option JsonrpcProbe) → Headers → Text → Protocol
unfolding is_a2a_method ◌=ₜ◌ is_empty
detect_protocol probe h body =
    if not (is_empty h.a2a_signature)
    then proto_a2a
    else if not (is_empty h.mcp_session_id)
    then proto_mcp
    else by_method (probe body)

unfoldable pub parse_protocol_hint : Text → Protocol
unfolding ◌=ₜ◌
parse_protocol_hint s =
    if s =ₜ codes "a2a"
    then proto_a2a
    else if s =ₜ codes "http" || (s =ₜ codes "rest" || s =ₜ codes "graphql")
    then proto_http_api
    else if s =ₜ codes "mcp"
    then proto_mcp
    else proto_auto

-- A name that `String` prints parses to its protocol.
pub parse_protocol_hint-protocol_string :
    (p : Protocol) → parse_protocol_hint (protocol_string p) ≡ p
unfolding parse_protocol_hint protocol_string
parse_protocol_hint-protocol_string proto_auto = refl
parse_protocol_hint-protocol_string proto_mcp = refl
parse_protocol_hint-protocol_string proto_a2a = refl
parse_protocol_hint-protocol_string proto_http_api = refl
