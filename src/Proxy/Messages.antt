-- ===== src/Proxy/Messages.antt =====
-- internal/transport/proxy/common.go: the address of the upstream, the address of the client, and
-- bodies that run through the chain. `url_path` is the path that `url.Parse` finds, `none` where it
-- fails; `trim_space` is `strings.TrimSpace`. The middlewares read the context of their call in the
-- state; `enter` puts the note of a new request there.
use shield_agent.Prelude.{
  ◌==◌, ◌||◌, Bool, true, Option, none, some, List, [], ◌∷◌, ◌++◌, Text, codes, ◌=ₜ◌, is_empty,
  trim_right_slash, if◌then◌else◌,
}
use shield_agent.Prelude.Result.{Result, ok, err}
use shield_agent.Jsonrpc.{Request, Response}
use shield_agent.AuthResult.{AuthResult, no_result}
use shield_agent.Chain.{Middleware, process_request, process_response}
use shield_agent.Proxy.Router.{strip_port}

abbrev pub with_query : Text → Text → Text
unfolding is_empty
with_query url query = if is_empty query then url else url ++ b'?' ∷ query

abbrev pub or_mcp : Text → Text
or_mcp path = if path =ₜ codes "/" || is_empty path then codes "/mcp" else path

abbrev pub has_no_path : Option Text → Bool
has_no_path none = true
has_no_path (some path) = is_empty path || path =ₜ codes "/"

unfoldable pub build_upstream_url : (Text → Option Text) → Text → Text → Text → Text
unfolding is_empty ◌=ₜ◌ trim_right_slash
build_upstream_url url_path upstream req_path raw_query =
    if has_no_path (url_path upstream)
    then with_query (trim_right_slash upstream ++ or_mcp req_path) raw_query
    else with_query upstream raw_query

-- The text before the first comma, if there is one
unfoldable pub before_comma : Text → Option Text
before_comma [] = none
before_comma (c ∷ s) =
    let rest = before_comma s in
    if c == b',' then some [] else elim rest [ none ↦ none | some t ↦ some (c ∷ t) ]

-- The first address of `X-Forwarded-For`, else the peer's without its port.
unfoldable pub client_ip : (Text → Text) → Text → Text → Text
unfolding before_comma is_empty strip_port
client_ip trim_space remote_addr forwarded_for =
    let xff = trim_space forwarded_for in
    if is_empty xff
    then strip_port remote_addr
    else elim (before_comma xff) [ none ↦ xff | some first ↦ trim_space first ]

-- What `encoding/json` makes of a body; `marshal` is of an error response, which does not fail.
pub record Json : Type 0 where
  pub is_object : Text → Bool
  pub has_field : Text → Text → Bool
  pub as_request : Text → Option Request
  pub as_response : Text → Option Response
  pub marshal_request : Request → Option Text
  pub marshal_response : Response → Option Text
  pub marshal : Response → Text

-- The request that a body is read as
unfoldable pub request_in : Json → Text → Option Request
request_in j body =
    if j.is_object body
    then (if j.has_field body (codes "method") then j.as_request body else none)
    else none

unfoldable pub response_in : Json → Text → Option Response
response_in j body =
    if j.is_object body
    then (if j.has_field body (codes "result") || j.has_field body (codes "error")
        then j.as_response body
        else none)
    else none

abbrev pub or_body : Option Text → Text → Text
or_body none body = body
or_body (some out) _ = out

-- The middlewares of the chain, if there is a chain
abbrev pub Items : Type 0 → Type 0 → Type 0
Items S E = Option (List (Middleware S E))

module _ {S E : Type 0} (message : E → Text) (j : Json) where
  -- The payload is what the caller is answered; the error itself is only logged.
  unfoldable pub apply_request : Items S E → S → Text → S × Result Text Text
  unfolding process_request request_in
  apply_request none s body = (s, ok body)
  apply_request (some items) s body = elim (request_in j body) [
    | none ↦ (s, ok body)
    | some req ↦
        let (s', answer) = process_request message j.marshal items s req in
        elim answer [
          | ok modified ↦ (s', ok (or_body (j.marshal_request modified) body))
          | err (payload, e) ↦ (s', err payload)
        ]
  ]

  unfoldable pub apply_request_with_ip :
      (AuthResult → S → S)
      → (Text → Text)
      → Items S E
      → S
      → Text
      → Text
      → Text
      → S × Result Text Text
  unfolding apply_request client_ip
  apply_request_with_ip enter trim_space items s body remote_addr forwarded_for =
      let note = record no_result { ip_address = client_ip trim_space remote_addr forwarded_for } in
      apply_request items (enter note s) body

  -- `none` where the response is blocked
  unfoldable pub apply_response : Items S E → S → Text → S × Option Text
  unfolding process_response response_in
  apply_response none s body = (s, some body)
  apply_response (some items) s body = elim (response_in j body) [
    | none ↦ (s, some body)
    | some resp ↦
        let (s', answer) = process_response items s resp in
        elim answer [
          | ok modified ↦ (s', some (or_body (j.marshal_response modified) body))
          | err e ↦ (s', none)
        ]
  ]
