-- ===== src/Compliance/Bodies/Stable.antt =====
-- What the notes on a body do not depend on.
use mathlib.Core.List.{Memᴰ}
use shield_agent.Prelude.{
  ◌≡◌, refl, ap, ◌∙◌, inl, inr, ◌⊎◌, false, none, some, List, [], ◌∷◌, Text, codes, =ₜ_refl,
  is_empty, arith, Option-cases,
}
use shield_agent.Egress.Headers.{Header}
use shield_agent.Egress.{EgressRequest, EgressResponse}
use shield_agent.Compliance.Bodies.{
  ModelReader, Extractor, openai, anthropic, google, extract, found, probe, tag, tag_of, ContentTag,
  no_tag, ai_tag, set_header, ComplianceMiddleware, Digests, process_bodies, inspect_request,
  inspect_response, scrub_bytes, kept_body,
}

module _ (j : ModelReader) where
  -- A text that reads with both fields reads with the first one alone.
  abbrev pub IsLenient : Type 0
  IsLenient =
      (body model version : Text)
      → j.model_version body ≡ some (model, version)
      → j.model body ≡ some model

  -- The model under `model`, else what the extractor of Google finds.
  abbrev pub best : Text → ContentTag
  best body = elim (extract j openai body) [
    | some model ↦ ai_tag model
    | none ↦ tag_of (extract j google body)
  ]

  extract-best :
      IsLenient
      → (e : Extractor) (body model : Text) → extract j e body ≡ some model
      → best body ≡ ai_tag model
  unfolding extract is_empty
  extract-best lenient openai body model h = ground arith
  extract-best lenient anthropic body model h = ground arith
  extract-best lenient google body model h = elim (Option-cases (j.model_version body)) [
    | inl unread ↦ absurd (ground arith)
    | inr ((m, v), read) ↦ ground (arith, lenient body m v read)
  ]

  -- Some extractor finds the tag, or none finds anything.
  probe_cases :
      IsLenient
      → (order : List Extractor) (body : Text)
      → (probe j order body ≡ best body)
        ⊎ ((probe j order body ≡ no_tag)
            × ((e : Extractor) → Memᴰ e order → extract j e body ≡ none))
  unfolding probe
  probe_cases lenient [] body = inr (refl, λ e at. elim at [ ])
  probe_cases lenient (e ∷ order) body = elim (Option-cases (extract j e body)) [
    | inr (model, it) ↦ inl (ground (arith, extract-best lenient e body model it))
    | inl nothing ↦ elim (probe_cases lenient order body) [
      | inl rest ↦ inl (ground arith)
      | inr (rest, all) ↦ inr (ground arith, none_of e order body nothing all)
    ]
  ]
    where
      none_of :
          (e : Extractor) (order : List Extractor) (body : Text)
          → extract j e body ≡ none
          → ((e' : Extractor) → Memᴰ e' order → extract j e' body ≡ none)
          → (e' : Extractor) → Memᴰ e' (e ∷ order)
          → extract j e' body ≡ none
      none_of e order body nothing all e' (Memᴰ.head same) =
          ap (λ (x : Extractor). extract j x body) same ∙ nothing
      none_of e order body nothing all e' (Memᴰ.tail at) = all e' at

  probe-best :
      IsLenient
      → (order : List Extractor) (body : Text) → Memᴰ openai order
      → Memᴰ google order
      → probe j order body ≡ best body
  probe-best lenient order body o g = elim (probe_cases lenient order body) [
    | inl found ↦ found
    | inr (nothing, all) ↦ ground (arith, all openai o, all google g)
  ]

  -- Go ranges over the map of extractors in any order, and the tag is the same in each, if a text
  -- that reads as JSON with two fields reads with the first of them too.
  pub tag_any_order :
      IsLenient
      → (order order' : List Extractor) (provider body : Text) → Memᴰ openai order
      → Memᴰ google order
      → Memᴰ openai order'
      → Memᴰ google order'
      → tag j order provider body ≡ tag j order' provider body
  unfolding tag
  tag_any_order lenient order order' provider body o g o' g' =
      ground (arith, probe-best lenient order body o g, probe-best lenient order' body o' g')

set_header_twice :
    (name value : Text) (h : Header)
    → set_header name value (set_header name value h) ≡ set_header name value h
unfolding set_header
set_header_twice name value [] = ground (arith, =ₜ_refl name)
set_header_twice name value (f ∷ h) = ground (arith, =ₜ_refl name, set_header_twice name value h)

module _ {F : Type 0} (d : Digests) (order : List Extractor) (m : ComplianceMiddleware) where
  inspect_request_twice :
      (body : Text) (resp : EgressResponse F)
      → inspect_request d m body (inspect_request d m body resp) ≡ inspect_request d m body resp
  unfolding inspect_request
  inspect_request_twice body resp = ground arith

  inspect_response_twice :
      (provider : Text) (resp : EgressResponse F)
      → m.log_full_body ≡ false
      → inspect_response d order m provider (inspect_response d order m provider resp)
        ≡ inspect_response d order m provider resp
  unfolding inspect_response
  inspect_response_twice provider resp short =
      ground (arith, set_header_twice (codes "X-Ai-Generated") (codes "true") resp.headers)

  inspect_request_later :
      (body provider : Text) (resp : EgressResponse F)
      → m.log_full_body ≡ false
      → inspect_request d m body
          (inspect_response d order m provider (inspect_request d m body resp))
        ≡ inspect_response d order m provider (inspect_request d m body resp)
  unfolding inspect_response inspect_request
  inspect_request_later body provider resp short = ground arith

  -- Unless scrubbed bodies are kept, a second run of the middleware on what the first one leaves
  -- changes nothing.
  pub process_bodies_twice :
      (req : EgressRequest) (resp : EgressResponse F)
      → m.log_full_body ≡ false
      → let (req', resp') = process_bodies d order m req resp in
        process_bodies d order m req' resp' ≡ (req', resp')
  unfolding process_bodies
  process_bodies_twice req resp short =
      let noted = inspect_request d m req.body resp in
      let scrubbed = scrub_bytes d.short_hash m.mode m.patterns req.body in
      let same : kept_body m scrubbed req.body ≡ req.body = ground arith in
      ap
        (λ (body : Text).
          process_bodies d order m (record req { body = body })
            (inspect_response d order m req.provider noted))
        same
      ∙ ap
          (λ (r : EgressResponse F).
            let p : EgressRequest × EgressResponse F =
              (record req { body = kept_body m scrubbed req.body }, r) in
            p)
          (ap (inspect_response d order m req.provider)
              (inspect_request_later req.body req.provider resp short)
            ∙ inspect_response_twice req.provider noted short)
