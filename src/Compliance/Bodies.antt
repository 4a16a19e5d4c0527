-- ===== src/Compliance/Bodies.antt =====
-- The bodies that internal/compliance/middleware.go inspects, with pii_scrub.go and content_tag.go
-- there. A pattern is what package regexp makes of it: `MatchString` and `ReplaceAllStringFunc`.
-- `ModelReader` is `json.Unmarshal` into a struct of `model` and into one of `model` and
-- `modelVersion`, `none` where it fails; the order in which Go ranges over the map of extractors is an argument. A response with a body has a
-- header map.
pub mod Stable
use shield_agent.Prelude.{
  Bool, true, false, not, Option, none, some, List, [], ◌∷◌, ◌++◌, ◌&&◌, Text, codes, ◌=ₜ◌,
  is_empty, if◌then◌else◌,
}
use shield_agent.Egress.Headers.{Field, Header}
use shield_agent.Egress.{EgressRequest, EgressResponse}

pub record NamedPattern : Type 0 where
  pub name : Text
  pub matches : Text → Bool
  pub replace_all : (Text → Text) → Text → Text

pub data RedactionMode : Type 0 where
  redact_mask redact_hash : RedactionMode

pub record Scrubbed : Type 0 where
  pub output : Text
  pub matched : List Text

abbrev pub with_match : Text → Scrubbed → Scrubbed
with_match name s = record s { matched = name ∷ s.matched }

abbrev pub no_match : Text → Scrubbed
no_match input = record { output = input; matched = [] }

-- `short_hash` is the hex code of the first six bytes of SHA-256.
module _ (short_hash : Text → Text) where
  abbrev pub redaction : RedactionMode → Text → Text → Text
  redaction redact_hash name m = codes "sha256:" ++ short_hash m
  redaction redact_mask name m = codes "[REDACTED:" ++ name ++ codes "]"

  -- The loop of `Scrub`
  unfoldable pub scrub_from : RedactionMode → List NamedPattern → Text → Scrubbed
  scrub_from mode [] out = no_match out
  scrub_from mode (p ∷ patterns) out = elim (p.matches out) [
    | false ↦ scrub_from mode patterns out
    | true ↦
        with_match p.name (scrub_from mode patterns (p.replace_all (redaction mode p.name) out))
  ]

  unfoldable pub scrub : RedactionMode → List NamedPattern → Text → Scrubbed
  unfolding scrub_from is_empty
  scrub mode patterns input =
      if is_empty input then no_match input else scrub_from mode patterns input

  -- Without a match the input itself is given back.
  unfoldable pub scrub_bytes : RedactionMode → List NamedPattern → Text → Scrubbed
  unfolding scrub is_empty
  scrub_bytes mode patterns input =
      let s = scrub mode patterns input in
      if is_empty input then no_match input else elim s.matched [ [] ↦ no_match input | _ ∷ _ ↦ s ]

pub record ContentTag : Type 0 where
  pub model : Text
  pub content_class : Text
  pub ai_generated : Bool

abbrev pub no_tag : ContentTag
no_tag = record { model = []; content_class = []; ai_generated = false }

abbrev pub ai_tag : Text → ContentTag
ai_tag model = record { model = model; content_class = codes "ai_generated"; ai_generated = true }

-- The extractors by the name of their provider
pub data Extractor : Type 0 where
  openai anthropic google : Extractor

abbrev pub found : Text → Option Text
found model = if is_empty model then none else some model

abbrev pub or_version : Text → Text → Option Text
or_version model version = if is_empty model then found version else some model

abbrev pub tag_of : Option Text → ContentTag
tag_of none = no_tag
tag_of (some model) = ai_tag model

abbrev pub extractor_of : Text → Option Extractor
extractor_of name =
    if name =ₜ codes "openai"
    then some openai
    else if name =ₜ codes "anthropic"
    then some anthropic
    else if name =ₜ codes "google"
    then some google
    else none

pub record ModelReader : Type 0 where
  pub model : Text → Option Text
  pub model_version : Text → Option (Text × Text)

module _ (j : ModelReader) where
  -- `openaiExtractor`, `anthropicExtractor` and `googleExtractor`
  unfoldable pub extract : Extractor → Text → Option Text
  unfolding is_empty
  extract openai body = elim (j.model body) [ none ↦ none | some model ↦ found model ]
  extract anthropic body = elim (j.model body) [ none ↦ none | some model ↦ found model ]
  extract google body = elim (j.model_version body) [
    | none ↦ none
    | some (model, version) ↦ or_version model version
  ]

  -- The fallback probe
  unfoldable pub probe : List Extractor → Text → ContentTag
  unfolding extract
  probe [] body = no_tag
  probe (e ∷ order) body = elim (extract e body) [
    | none ↦ probe order body
    | some model ↦ ai_tag model
  ]

  -- `Tag`, but for the provider, which it only repeats
  unfoldable pub tag : List Extractor → Text → Text → ContentTag
  unfolding probe extract is_empty ◌=ₜ◌
  tag order provider body = if is_empty body then no_tag else elim (extractor_of provider) [
    | some e ↦ tag_of (extract e body)
    | none ↦ probe order body
  ]

-- `h.Set(name, value)`, for a canonical name
unfoldable pub set_header : Text → Text → Header → Header
set_header name value [] = record { name = name; values = value ∷ [] } ∷ []
set_header name value (f ∷ h) =
    let rest = set_header name value h in
    if f.name =ₜ name then record { name = name; values = value ∷ [] } ∷ h else f ∷ rest

pub record ComplianceMiddleware : Type 0 where
  pub patterns : List NamedPattern
  pub mode : RedactionMode
  pub inject_header : Bool
  pub log_full_body : Bool

pub record Digests : Type 0 where
  pub short_hash : Text → Text
  pub sha256_hex : Text → Text
  pub reader : ModelReader

abbrev pub any_name : List Text → Bool
any_name [] = false
any_name (_ ∷ _) = true

abbrev pub has_match : Scrubbed → Bool
has_match s = any_name s.matched

abbrev pub kept_body : ComplianceMiddleware → Scrubbed → Text → Text
kept_body m s body = if has_match s && m.log_full_body then s.output else body

abbrev pub injected : ComplianceMiddleware → ContentTag → Header → Header
injected m t h =
    if t.ai_generated && m.inject_header
    then set_header (codes "X-Ai-Generated") (codes "true") h
    else h

module _ {F : Type 0} where
  abbrev pub flag_pii : Scrubbed → EgressResponse F → EgressResponse F
  flag_pii s resp =
      if has_match s then record resp { pii_detected = true; pii_scrubbed = true } else resp

  -- What is noted of the request's body
  unfoldable pub inspect_request :
      Digests → ComplianceMiddleware → Text → EgressResponse F → EgressResponse F
  unfolding scrub_bytes is_empty
  inspect_request d m body resp =
      let s = scrub_bytes d.short_hash m.mode m.patterns body in
      if is_empty body
      then resp
      else record (flag_pii s resp) { prompt_hash = d.sha256_hex s.output }

  abbrev pub tagged :
      ComplianceMiddleware → ContentTag → Scrubbed → EgressResponse F → EgressResponse F
  tagged m t s resp = record (flag_pii s resp) {
    body = kept_body m s resp.body;
    model = t.model;
    content_class = t.content_class;
    ai_generated = t.ai_generated;
    headers = injected m t resp.headers;
  }

  -- And of the response's body
  unfoldable pub inspect_response :
      Digests → List Extractor → ComplianceMiddleware → Text → EgressResponse F → EgressResponse F
  unfolding scrub_bytes tag set_header is_empty
  inspect_response d order m provider resp =
      let s = scrub_bytes d.short_hash m.mode m.patterns resp.body in
      if is_empty resp.body then resp else tagged m (tag d.reader order provider s.output) s resp

  -- `ProcessResponse`: the request, whose body it may replace, and the response
  unfoldable pub process_bodies :
      Digests
      → List Extractor
      → ComplianceMiddleware
      → EgressRequest
      → EgressResponse F
      → EgressRequest × EgressResponse F
  unfolding inspect_request inspect_response scrub_bytes
  process_bodies d order m req resp =
      let s = scrub_bytes d.short_hash m.mode m.patterns req.body in
      (
        record req { body = kept_body m s req.body },
        inspect_response d order m req.provider (inspect_request d m req.body resp),
      )
