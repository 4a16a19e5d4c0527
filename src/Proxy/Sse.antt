-- ===== src/Proxy/Sse.antt =====
-- internal/transport/proxy/sse.go and session.go. `data` of an event is `content`. A session holds
-- the events that were sent on its channel; a send works unless the handler has returned, which
-- `sends` says for the number of events sent before. The lines of the upstream's answer go through a scanner.

pub mod Relayed
use shield_agent.Prelude.{
  ℕ, ◌==◌, ◌||◌, Bool, true, false, not, Option, none, some, List, [], ◌∷◌, ◌++◌, Text, codes, ◌=ₜ◌,
  is_empty, has_prefix, length, if◌then◌else◌,
}
use shield_agent.Prelude.Scanner.{scan_lines, max_scan_token_size}
use shield_agent.Prelude.Map.{Map, empty, insert, delete}
use shield_agent.Prelude.Result.{Result, ok, err}
use shield_agent.AuthResult.{AuthResult}
use shield_agent.Proxy.Router.{trim_prefix}
use shield_agent.Proxy.Messages.{
  Json, Items, build_upstream_url, apply_request_with_ip, apply_response,
}
use shield_agent.Proxy.Http.{
  HttpRequest, UpstreamRequest, UpstreamResponse, Effect, http_error, set_header, write_header,
  write, forward, Network, read_limited,
}
use shield_agent.Proxy.Cors.{set_cors_headers}

pub record Session : Type 0 where
  pub upstream_msg_url : Text
  pub events : List Text

abbrev pub SessionStore : Type 0
SessionStore = Map Session

abbrev pub new_session_store : SessionStore
new_session_store = empty

unfoldable pub add : Text → Session → SessionStore → SessionStore
add id sess s = insert id sess s

unfoldable pub get : Text → SessionStore → Option Session
get id s = s id

unfoldable pub remove : Text → SessionStore → SessionStore
remove id s = delete id s

unfoldable pub set_upstream_msg_url : Text → Session → Session
set_upstream_msg_url u s = record s { upstream_msg_url = u }

pub record SseEvent : Type 0 where
  pub typ : Text
  pub content : Text

abbrev pub no_event : SseEvent
no_event = record { typ = []; content = [] }

abbrev pub event_field : Text
event_field = codes "event: "

abbrev pub data_field : Text
data_field = codes "data: "

-- One round of the loop of `parseSSEEvent`
unfoldable pub read_field : SseEvent → Text → SseEvent
unfolding has_prefix
read_field ev line =
    if has_prefix line event_field
    then record ev { typ = trim_prefix line event_field }
    else if has_prefix line data_field
    then record ev { content = trim_prefix line data_field }
    else ev

unfoldable pub read_fields : SseEvent → List Text → SseEvent
unfolding read_field
read_fields ev [] = ev
read_fields ev (line ∷ lines) = read_fields (read_field ev line) lines

unfoldable pub parse_sse_event : List Text → SseEvent
unfolding read_fields
parse_sse_event lines = read_fields no_event lines

abbrev pub event_line : Text → Text
unfolding is_empty
event_line typ = if is_empty typ then [] else event_field ++ (typ ++ 10 ∷ [])

-- What the builder writes for an event
unfoldable pub event_text : Text → Text → Text
unfolding is_empty
event_text typ content = event_line typ ++ (data_field ++ (content ++ 10 ∷ 10 ∷ []))

abbrev pub is_endpoint : SseEvent → Bool
unfolding ◌=ₜ◌
is_endpoint ev = ev.typ =ₜ codes "endpoint"

abbrev pub absolute_url : Text → Text → Text
unfolding has_prefix
absolute_url upstream u = if has_prefix u (codes "/") then upstream ++ u else u

abbrev pub local_event : Text → Text
local_event local_id =
    codes "event: endpoint"
    ++ (10 ∷ codes "data: /messages?sessionId=" ++ (local_id ++ 10 ∷ 10 ∷ []))

abbrev pub sent : Session → Text → Session
sent sess event = record sess { events = sess.events ++ event ∷ [] }

module _ {S E : Type 0} (message : E → Text) (j : Json) (items : Items S E)
    (upstream local_id : Text) where
  -- An event of the upstream: the new state, the session, and the text for the client if there is one.
  unfoldable pub on_event : S → Session → SseEvent → S × Session × Option Text
  unfolding ◌=ₜ◌ has_prefix is_empty apply_response set_upstream_msg_url event_text
  on_event s sess ev =
      if is_endpoint ev
      then (
        s,
        set_upstream_msg_url (absolute_url upstream ev.content) sess,
        some (local_event local_id),
      )
      else if is_empty ev.content
      then (s, sess, none)
      else let (s', answer) = apply_response message j items s ev.content in
        elim answer [
          | none ↦ (s', sess, none)
          | some content ↦ (s', sess, some (event_text ev.typ content))
        ]

  module _ (sends : ℕ → Bool) where
    -- The loop of the goroutine on the lines that its scanner gives, from those that it has collected on
    unfoldable pub relay_scanned : S → Session → List Text → List Text → S × Session
    unfolding on_event parse_sse_event is_empty
    relay_scanned s sess block [] = (s, sess)
    relay_scanned s sess block (line ∷ lines) = elim (is_empty line) [
      | false ↦ relay_scanned s sess (block ++ line ∷ []) lines
      | true ↦
          let (s', sess', out) = on_event s sess (parse_sse_event block) in
          elim out [
            | none ↦ relay_scanned s' sess' [] lines
            | some event ↦ elim (sends (length sess'.events)) [
              | false ↦ (s', sess')
              | true ↦ relay_scanned s' (sent sess' event) [] lines
            ]
          ]
    ]

    -- The goroutine on the lines of the answer; a line that is too long for the scanner ends it.
    unfoldable pub relay_lines : S → Session → List Text → S × Session
    unfolding relay_scanned scan_lines
    relay_lines s sess lines = relay_scanned s sess [] (scan_lines max_scan_token_size lines)

abbrev pub sse_request : (Text → Option Text) → Text → UpstreamRequest
sse_request url_path upstream = record {
  method = codes "GET";
  url = build_upstream_url url_path upstream (codes "/sse") [];
  headers =
      (codes "Accept", codes "text/event-stream") ∷ (codes "Cache-Control", codes "no-cache") ∷ [];
  body = none;
}

abbrev pub sse_headers : List Effect
sse_headers =
    set_header (codes "Content-Type") (codes "text/event-stream")
    ∷ set_header (codes "Cache-Control") (codes "no-cache")
    ∷ set_header (codes "Connection") (codes "keep-alive")
    ∷ write_header 200
    ∷ []

-- `handleSSE` up to its loop: the sessions, what it does, and the lines of the answer, which its goroutine relays.
unfoldable pub handle_sse :
    (Text → Option Text)
    → Text
    → List Text
    → Network
    → Bool
    → Text
    → SessionStore
    → HttpRequest
    → SessionStore × List Effect × List Text
unfolding ◌=ₜ◌ add set_cors_headers
handle_sse url_path upstream origins net can_flush local_id sessions r =
    let req = sse_request url_path upstream in
    if not (r.method =ₜ codes "GET")
    then (sessions, http_error 405 (codes "method not allowed") ∷ [], [])
    else if not can_flush
    then (sessions, http_error 500 (codes "streaming not supported by this server") ∷ [], [])
    else if not (net.is_valid req)
    then (sessions, http_error 502 (codes "upstream error") ∷ [], [])
    else elim (net.answer req) [
      | none ↦ (sessions, forward req ∷ http_error 502 (codes "upstream unavailable") ∷ [], [])
      | some resp ↦ (
        add local_id (record { upstream_msg_url = []; events = [] }) sessions,
        forward req ∷ set_cors_headers r origins ++ sse_headers,
        resp.lines,
      )
    ]

abbrev pub blocked_reply : Text → List Effect
blocked_reply payload =
    set_header (codes "Content-Type") (codes "application/json")
    ∷ write_header 401
    ∷ write payload
    ∷ []

abbrev pub message_request : Text → Text → UpstreamRequest
message_request url body = record {
  method = codes "POST";
  url = url;
  headers = (codes "Content-Type", codes "application/json") ∷ [];
  body = some body;
}

unfoldable pub send_message : Network → Text → Text → List Effect
send_message net url body =
    let req = message_request url body in
    if net.is_valid req
    then elim (net.answer req) [
      | none ↦ forward req ∷ http_error 502 (codes "upstream error") ∷ []
      | some resp ↦ forward req ∷ write_header resp.status_code ∷ []
    ]
    else http_error 502 (codes "upstream request error") ∷ []

-- The session's address for messages, or what the caller is told
unfoldable pub message_url : SessionStore → Text → Result Effect Text
unfolding is_empty get
message_url sessions id =
    if is_empty id
    then err (http_error 400 (codes "missing sessionId query param"))
    else elim (get id sessions) [
      | none ↦ err (http_error 404 (codes "unknown session"))
      | some sess ↦
          if is_empty sess.upstream_msg_url
          then err
              (http_error 503 (codes "session not ready yet (endpoint not received from upstream)"))
          else ok sess.upstream_msg_url
    ]

module _ {S E : Type 0} (message : E → Text) (j : Json) (enter : AuthResult → S → S)
    (trim_space : Text → Text) (items : Items S E) (net : Network) where
  unfoldable pub checked_message : S → Text → HttpRequest → Text → S × List Effect
  unfolding apply_request_with_ip send_message
  checked_message s url r body =
      let forwarded_for = r.header (codes "X-Forwarded-For") in
      let (s', answer) =
        apply_request_with_ip message j enter trim_space items s body r.remote_addr forwarded_for in
      elim answer [
        | err payload ↦ (s', blocked_reply payload)
        | ok out ↦ (s', send_message net url out)
      ]

  unfoldable pub post_message : SessionStore → S → HttpRequest → S × List Effect
  unfolding checked_message message_url read_limited
  post_message sessions s r = elim (message_url sessions r.session_id) [
    | err e ↦ (s, e ∷ [])
    | ok url ↦ elim (read_limited r.body) [
      | none ↦ (s, http_error 400 (codes "request read error") ∷ [])
      | some body ↦ checked_message s url r body
    ]
  ]

  unfoldable pub handle_messages : List Text → SessionStore → S → HttpRequest → S × List Effect
  unfolding post_message set_cors_headers ◌=ₜ◌
  handle_messages origins sessions s r =
      let cors = set_cors_headers r origins in
      if r.method =ₜ codes "OPTIONS"
      then (s, cors ++ write_header 200 ∷ [])
      else if not (r.method =ₜ codes "POST")
      then (s, cors ++ http_error 405 (codes "method not allowed") ∷ [])
      else let (s', effects) = post_message sessions s r in (s', cors ++ effects)
