-- ===== src/Proxy/Streamable.antt =====
-- internal/transport/proxy/streamable.go. `url_path` is the path that `url.Parse` finds.
use shield_agent.Prelude.{
  ◌||◌, ◌&&◌, Bool, true, false, not, Option, none, some, List, [], ◌∷◌, ◌++◌, Text, codes, ◌=ₜ◌,
  is_empty, has_prefix, contains, if◌then◌else◌,
}
use shield_agent.Prelude.Scanner.{scan_lines, max_scan_token_size}
use shield_agent.Prelude.Result.{ok, err}
use shield_agent.AuthResult.{AuthResult}
use shield_agent.Proxy.Messages.{
  Json, Items, or_body, build_upstream_url, apply_request_with_ip, apply_response,
}
use shield_agent.Proxy.Http.{
  HttpRequest, UpstreamRequest, UpstreamResponse, Effect, http_error, write_header, write, forward,
  Network, read_limited, relayed_headers,
}
use shield_agent.Proxy.Cors.{set_cors_headers}
use shield_agent.Proxy.Sse.{
  SseEvent, parse_sse_event, event_line, event_field, data_field, blocked_reply,
}

-- `GET` and `DELETE`, which are passed on without the chain
abbrev pub is_session_call : HttpRequest → Bool
unfolding ◌=ₜ◌
is_session_call r = r.method =ₜ codes "GET" || r.method =ₜ codes "DELETE"

abbrev pub is_other : HttpRequest → Bool
unfolding ◌=ₜ◌
is_other r =
    not (r.method =ₜ codes "POST")
    && (not (r.method =ₜ codes "GET") && not (r.method =ₜ codes "DELETE"))

-- A field of the request, if it is given
abbrev pub copied : Text → HttpRequest → List (Text × Text)
unfolding is_empty
copied name r = if is_empty (r.header name) then [] else (name, r.header name) ∷ []

abbrev pub is_event_stream : UpstreamResponse → Bool
unfolding contains
is_event_stream resp = contains resp.content_type (codes "text/event-stream")

abbrev pub head_of : UpstreamResponse → List Effect
head_of resp = relayed_headers resp.headers ++ write_header resp.status_code ∷ []

module _ {S E : Type 0} (message : E → Text) (j : Json) (items : Items S E) where
  -- A response that is blocked is passed on as it came.
  unfoldable pub respond : S → Text → S × Text
  unfolding apply_response
  respond s body =
      let (s', answer) = apply_response message j items s body in (s', or_body answer body)

  unfoldable pub relay_event : S → SseEvent → S × Text
  unfolding respond is_empty
  relay_event s ev =
      if is_empty ev.content
      then (s, event_line ev.typ ++ 10 ∷ [])
      else let (s', content) = respond s ev.content in
        (s', event_line ev.typ ++ (data_field ++ (content ++ 10 ∷ 10 ∷ [])))

  -- From the lines that are collected on, on those that the scanner gives
  unfoldable pub relay_sse_response : S → List Text → List Text → S × List Effect
  unfolding relay_event parse_sse_event is_empty has_prefix
  relay_sse_response s block [] = (s, [])
  relay_sse_response s block (line ∷ lines) = elim (is_empty line) [
    | true ↦
        let (s', out) = relay_event s (parse_sse_event block) in
        let (s'', outs) = relay_sse_response s' [] lines in (s'', write out ∷ outs)
    | false ↦ elim (has_prefix line event_field || has_prefix line data_field) [
      | true ↦ relay_sse_response s (block ++ line ∷ []) lines
      | false ↦
          let (s', outs) = relay_sse_response s block lines in (s', write (line ++ 10 ∷ []) ∷ outs)
    ]
  ]

  -- An answer whose body cannot be read gets its head only.
  unfoldable pub relay_response : S → UpstreamResponse → S × List Effect
  unfolding relay_sse_response scan_lines respond contains
  relay_response s resp =
      if is_event_stream resp
      then (let (s', outs) = relay_sse_response s [] (scan_lines max_scan_token_size resp.lines) in
          (s', head_of resp ++ outs))
      else elim resp.body [
        | none ↦ (s, head_of resp)
        | some body ↦ let (s', out) = respond s body in (s', head_of resp ++ write out ∷ [])
      ]

  -- `io.Copy` of a body that fails writes what it has read, which is left out.
  unfoldable pub relay_raw : S → UpstreamResponse → S × List Effect
  unfolding relay_sse_response scan_lines contains
  relay_raw s resp =
      if is_event_stream resp
      then (let (s', outs) = relay_sse_response s [] (scan_lines max_scan_token_size resp.lines) in
          (s', head_of resp ++ outs))
      else elim resp.body [
        | none ↦ (s, head_of resp)
        | some body ↦ (s, head_of resp ++ write body ∷ [])
      ]

module _ (url_path : Text → Option Text) (upstream : Text) where
  abbrev pub url_of : HttpRequest → Text
  url_of r = build_upstream_url url_path upstream r.path r.raw_query

  abbrev pub raw_request : HttpRequest → UpstreamRequest
  raw_request r = record { method = r.method; url = url_of r; headers = r.headers; body = r.body }

  abbrev pub mcp_request : HttpRequest → Text → UpstreamRequest
  mcp_request r body = record {
    method = codes "POST";
    url = url_of r;
    headers =
        (codes "Content-Type", codes "application/json") ∷ copied (codes "Accept") r
        ++ copied (codes "Mcp-Session-Id") r;
    body = some body;
  }

  module _ {S E : Type 0} (message : E → Text) (j : Json) (items : Items S E) (net : Network) where
    unfoldable pub proxy_raw : S → HttpRequest → S × List Effect
    unfolding relay_raw
    proxy_raw s r =
        let req = raw_request r in
        if net.is_valid req
        then elim (net.answer req) [
          | none ↦ (s, forward req ∷ http_error 502 (codes "upstream unavailable") ∷ [])
          | some resp ↦
              let (s', outs) = relay_raw message j items s resp in (s', forward req ∷ outs)
        ]
        else (s, http_error 502 (codes "upstream error") ∷ [])

    unfoldable pub send_mcp : S → HttpRequest → Text → S × List Effect
    unfolding relay_response is_empty
    send_mcp s r body =
        let req = mcp_request r body in
        if net.is_valid req
        then elim (net.answer req) [
          | none ↦ (s, forward req ∷ http_error 502 (codes "upstream unavailable") ∷ [])
          | some resp ↦
              let (s', outs) = relay_response message j items s resp in (s', forward req ∷ outs)
        ]
        else (s, http_error 502 (codes "upstream error") ∷ [])

    module _ (enter : AuthResult → S → S) (trim_space : Text → Text) where
      unfoldable pub post_mcp : S → HttpRequest → Text → S × List Effect
      unfolding apply_request_with_ip send_mcp
      post_mcp s r body =
          let forwarded_for = r.header (codes "X-Forwarded-For") in
          let (s', answer) =
            apply_request_with_ip message j enter trim_space items s body r.remote_addr
              forwarded_for in
          elim answer [ err payload ↦ (s', blocked_reply payload) | ok out ↦ send_mcp s' r out ]

      abbrev pub answer_mcp : S → HttpRequest → S × List Effect
      unfolding post_mcp read_limited proxy_raw ◌=ₜ◌
      answer_mcp s r =
          if r.method =ₜ codes "OPTIONS"
          then (s, write_header 200 ∷ [])
          else if is_other r
          then (s, http_error 405 (codes "method not allowed") ∷ [])
          else if is_session_call r
          then proxy_raw s r
          else elim (read_limited r.body) [
            | none ↦ (s, http_error 400 (codes "request read error") ∷ [])
            | some body ↦ post_mcp s r body
          ]

      unfoldable pub handle_mcp : List Text → S → HttpRequest → S × List Effect
      unfolding answer_mcp set_cors_headers
      handle_mcp origins s r =
          let (s', effects) = answer_mcp s r in (s', set_cors_headers r origins ++ effects)
