-- ===== src/Proxy/Accepted.antt =====
-- What the MCP transports send to their upstream.
use mathlib.Core.List.{append_assoc}
use shield_agent.Prelude.{
  ◌≡◌, refl, inl, inr, ◌||◌, ◌&&◌, ◌↔◌, not, true, false, Option, none, some, List, [], ◌∷◌, ◌++◌,
  Text, codes, ◌=ₜ◌, is_empty, has_prefix, ap, ◌∙◌, sym, if◌then◌else◌, arith, Bool-cases,
  Option-cases,
}
use shield_agent.Prelude.Result.{Result, ok, err, Result-cases}
use shield_agent.AuthResult.{AuthResult}
use shield_agent.Prelude.Scanner.{scan_lines, max_scan_token_size}
use shield_agent.Proxy.Messages.{Json, Items, apply_request_with_ip}
use shield_agent.Proxy.Http.{
  HttpRequest, UpstreamRequest, UpstreamResponse, Effect, http_error, set_header, add_header,
  write_header, write, forward, Network, read_limited, relayed_headers,
}
use shield_agent.Proxy.Cors.{origin_headers, set_cors_headers}
use shield_agent.Proxy.Sse.{parse_sse_event, event_field, data_field}
use shield_agent.Proxy.Streamable.{
  mcp_request, head_of, relay_event, relay_sse_response, relay_response, respond, send_mcp,
  post_mcp, answer_mcp, handle_mcp,
}

-- The requests among what a handler does
abbrev pub sent_upstream : List Effect → List UpstreamRequest
sent_upstream [] = []
sent_upstream (forward req ∷ es) = req ∷ sent_upstream es
sent_upstream (_ ∷ es) = sent_upstream es

sent_upstream-append :
    (es fs : List Effect) → sent_upstream (es ++ fs) ≡ sent_upstream es ++ sent_upstream fs
sent_upstream-append [] fs = refl
sent_upstream-append (forward req ∷ es) fs =
    ap (λ (rs : List UpstreamRequest). req ∷ rs) (sent_upstream-append es fs)
sent_upstream-append (http_error a b ∷ es) fs = sent_upstream-append es fs
sent_upstream-append (set_header a b ∷ es) fs = sent_upstream-append es fs
sent_upstream-append (add_header a b ∷ es) fs = sent_upstream-append es fs
sent_upstream-append (write_header a ∷ es) fs = sent_upstream-append es fs
sent_upstream-append (write a ∷ es) fs = sent_upstream-append es fs

cors_silent :
    (origin : Text) (allowed : List Text) → sent_upstream (origin_headers origin allowed) ≡ []
unfolding origin_headers
cors_silent origin [] = refl
cors_silent origin (a ∷ allowed) = ground (arith, cors_silent origin allowed)

-- The CORS headers before what is done send nothing.
pub after_cors :
    (r : HttpRequest) (origins : List Text) (es : List Effect)
    → sent_upstream (set_cors_headers r origins ++ es) ≡ sent_upstream es
unfolding set_cors_headers
after_cors r origins es =
    sent_upstream-append (origin_headers (r.header (codes "Origin")) origins) es
    ∙ ap (λ (rs : List UpstreamRequest). rs ++ sent_upstream es)
        (cors_silent (r.header (codes "Origin")) origins)

pub headers_silent :
    (headers : List (Text × Text)) (es : List Effect)
    → sent_upstream (relayed_headers headers ++ es) ≡ sent_upstream es
headers_silent [] es = refl
headers_silent ((name, value) ∷ headers) es = headers_silent headers es

head_silent :
    (resp : UpstreamResponse) (es : List Effect)
    → sent_upstream (head_of resp ++ es) ≡ sent_upstream es
head_silent resp es =
    ap sent_upstream
      (append_assoc (relayed_headers resp.headers) (write_header resp.status_code ∷ []) es)
    ∙ headers_silent resp.headers (write_header resp.status_code ∷ es)

post_tests :
    (m : Text)
    → m ≡ codes "POST"
    → ((m =ₜ codes "OPTIONS") ≡ false)
      × ((not (m =ₜ codes "POST") && (not (m =ₜ codes "GET") && not (m =ₜ codes "DELETE"))) ≡ false)
      × ((m =ₜ codes "GET" || m =ₜ codes "DELETE") ≡ false)
unfolding ◌=ₜ◌
post_tests m e = rw e (refl, refl, refl)

module _ {S E : Type 0} (message : E → Text) (j : Json) (items : Items S E) where
  events_silent :
      (s : S) (block lines : List Text)
      → sent_upstream (relay_sse_response message j items s block lines).1 ≡ []
  unfolding relay_sse_response
  events_silent s block [] = refl
  events_silent s block (line ∷ lines) = elim (Bool-cases (is_empty line)) [
    | inl e ↦
        rw (e, relay_sse_response)
          (events_silent (relay_event message j items s (parse_sse_event block)).0 [] lines)
    | inr e ↦ elim (Bool-cases (has_prefix line event_field || has_prefix line data_field)) [
      | inl f ↦ rw (e, f, relay_sse_response) (events_silent s (block ++ line ∷ []) lines)
      | inr f ↦ rw (e, f, relay_sse_response) (events_silent s block lines)
    ]
  ]

  answer_silent :
      (s : S) (resp : UpstreamResponse)
      → sent_upstream (relay_response message j items s resp).1 ≡ []
  unfolding relay_response
  answer_silent s resp = elim (Option-cases resp.body) [
    | inl e ↦ ground (
      arith,
      e,
      head_silent resp
          (relay_sse_response message j items s [] (scan_lines max_scan_token_size resp.lines)).1,
      events_silent s [] (scan_lines max_scan_token_size resp.lines),
      headers_silent resp.headers (write_header resp.status_code ∷ []),
    )
    | inr (body, e) ↦ ground (
      arith,
      e,
      head_silent resp
          (relay_sse_response message j items s [] (scan_lines max_scan_token_size resp.lines)).1,
      events_silent s [] (scan_lines max_scan_token_size resp.lines),
      head_silent resp (write (respond message j items s body).1 ∷ []),
    )
  ]

  module _ (url_path : Text → Option Text) (upstream : Text) (net : Network)
      (enter : AuthResult → S → S) (trim_space : Text → Text) (origins : List Text) where
    -- What the chain answers to the body of a request
    abbrev pub judged : S → HttpRequest → Text → Result Text Text
    judged s r body =
        (apply_request_with_ip message j enter trim_space items s body r.remote_addr
          (r.header (codes "X-Forwarded-For"))).1

    -- The chain takes the body that was read and makes `out` of it.
    abbrev pub Passes : S → HttpRequest → Text → Type 0
    Passes s r out = (body : Text) × (read_limited r.body ≡ some body) × (judged s r body ≡ ok out)

    post_mcp-sent :
        (s : S) (r : HttpRequest) (body : Text)
        → sent_upstream (post_mcp url_path upstream message j items net enter trim_space s r body).1
          ≡ elim (judged s r body) [
            | err _ ↦ []
            | ok out ↦
                if net.is_valid (mcp_request url_path upstream r out)
                then mcp_request url_path upstream r out ∷ []
                else []
          ]
    unfolding post_mcp send_mcp
    post_mcp-sent s r body =
        let (s', answer) =
          apply_request_with_ip message j enter trim_space items s body r.remote_addr
            (r.header (codes "X-Forwarded-For")) in
        elim (Result-cases answer) [
          | inr (payload, e) ↦ ground (arith, e)
          | inl (out, e) ↦ elim (Option-cases (net.answer (mcp_request url_path upstream r out))) [
            | inl n ↦ ground (arith, e, n)
            | inr (resp, n) ↦ ground (arith, e, n, answer_silent s' resp)
          ]
        ]

    -- What the handler sends for a POST
    abbrev due : S → HttpRequest → List UpstreamRequest
    due s r = elim (read_limited r.body) [
      | none ↦ []
      | some body ↦ elim (judged s r body) [
        | err _ ↦ []
        | ok out ↦
            if net.is_valid (mcp_request url_path upstream r out)
            then mcp_request url_path upstream r out ∷ []
            else []
      ]
    ]

    handle_mcp-due :
        (s : S) (r : HttpRequest)
        → r.method ≡ codes "POST"
        → sent_upstream
            (handle_mcp url_path upstream message j items net enter trim_space origins s r).1
          ≡ due s r
    unfolding handle_mcp
    handle_mcp-due s r e =
        let tests = post_tests r.method e in
        after_cors r origins
          (answer_mcp url_path upstream message j items net enter trim_space s r).1
        ∙ elim (Option-cases (read_limited r.body)) [
          | inl n ↦ ground (arith, n, tests.0, tests.1, tests.2)
          | inr (body, n) ↦ ground (arith, n, tests.0, tests.1, tests.2, post_mcp-sent s r body)
        ]

    due-Passes :
        (s : S) (r : HttpRequest) (req : UpstreamRequest)
        → due s r ≡ req ∷ []
        → (out : Text) × Passes s r out
          × (req ≡ mcp_request url_path upstream r out)
          × (net.is_valid req ≡ true)
    due-Passes s r req h = elim (Option-cases (read_limited r.body)) [
      | inl n ↦ absurd (ground arith)
      | inr (body, n) ↦ elim (Result-cases (judged s r body)) [
        | inr (payload, e) ↦ absurd (ground arith)
        | inl (out, e) ↦ elim (Bool-cases (net.is_valid (mcp_request url_path upstream r out))) [
          | inr v ↦ absurd (ground arith)
          | inl v ↦
              let same : req ≡ mcp_request url_path upstream r out = ground arith in
              (out, (body, n, e), same, ground arith)
        ]
      ]
    ]

    -- For a POST the streamable transport sends one request to its upstream exactly if the chain
    -- passes what was read of the body and the request for the upstream, which has what the chain made
    -- of it, can be built.
    pub handle_mcp-sends_iff :
        (s : S) (r : HttpRequest) (req : UpstreamRequest)
        → r.method ≡ codes "POST"
        → (sent_upstream
              (handle_mcp url_path upstream message j items net enter trim_space origins s r).1
            ≡ req ∷ [])
          ↔ ((out : Text) × Passes s r out
              × (req ≡ mcp_request url_path upstream r out)
              × (net.is_valid req ≡ true))
    handle_mcp-sends_iff s r req e = (
      λ h. due-Passes s r req (sym (handle_mcp-due s r e) ∙ h),
      λ p. handle_mcp-due s r e ∙ sends s r req p.0 p.1 p.2 p.3,
    )
      where
        sends :
            (s : S) (r : HttpRequest) (req : UpstreamRequest) (out : Text)
            → Passes s r out
            → req ≡ mcp_request url_path upstream r out
            → net.is_valid req ≡ true
            → due s r ≡ req ∷ []
        sends s r req out (body, n, e) same v = ground arith
