-- ===== src/Proxy/Dispatch/Judged.antt =====
-- Which A2A and HTTP API requests the proxy lets through.
use shield_agent.Prelude.{
  ◌≡◌, ◌≢◌, refl, ◌⊎◌, inl, inr, ◌↔◌, ◌||◌, true, false, none, some, [], Text, codes, ◌=ₜ◌, =ₜ_iff,
  is_empty, is_empty_iff, arith, Bool-cases, Option-cases,
}
use shield_agent.Prelude.Result.{Result-cases}
use shield_agent.Auth.Middleware.{Crypto}
use shield_agent.Auth.HttpAuth.{HttpCall, resolve_agent, hash_request}
use shield_agent.Auth.HttpAuth.Signed.{IsSigned, IsUnsigned}
use shield_agent.Proxy.Detect.{Protocol}
use shield_agent.Proxy.Http.{HttpRequest}
use shield_agent.Proxy.Dispatch.{HttpAuthDeps, config_of, sig_header, check_signature, check_auth}

-- The request as the authentication of internal/middleware/httpauth sees it
abbrev pub call_of : HttpRequest → Text → HttpCall
call_of r body = record { method = r.method; path = r.path; header = r.header; body = some body }

is_named : (t : Text) → is_empty t ≡ false → t ≢ []
is_named t h = ground (arith, is_empty_iff t)

strict_mode :
    (m : Text)
    → (m ≡ codes "closed") ⊎ (m ≡ codes "verified")
    → (m =ₜ codes "closed" || m =ₜ codes "verified") ≡ true
unfolding ◌=ₜ◌
strict_mode m (inl e) = rw e refl
strict_mode m (inr e) = rw e refl

verified_not_closed : (m : Text) → m ≡ codes "verified" → (m =ₜ codes "closed") ≡ false
unfolding ◌=ₜ◌
verified_not_closed m e = rw e refl

not_closed :
    (m : Text)
    → (m ≡ codes "closed") ⊎ (m ≡ codes "verified")
    → (m =ₜ codes "closed") ≡ false
    → m ≡ codes "verified"
unfolding ◌=ₜ◌
not_closed m (inl e) h = absurd (ground (arith, (=ₜ_iff m (codes "closed")).1 e))
not_closed m (inr e) h = e

module _ (c : Crypto) (deps : HttpAuthDeps) (r : HttpRequest) (body : Text) (proto : Protocol) where
  -- Both headers are given.
  abbrev pub NamesBoth : Type 0
  NamesBoth = (r.header (codes "X-Agent-ID") ≢ []) × (r.header (sig_header proto) ≢ [])

  -- Unsigned in the mode verified, or signed
  abbrev pub MayPass : Type 0
  MayPass =
      ((deps.mode ≡ codes "verified") × IsUnsigned (config_of deps proto) (call_of r body))
      ⊎ (NamesBoth × IsSigned c (config_of deps proto) (call_of r body))

  abbrev Strict : Type 0
  Strict = (deps.mode ≡ codes "closed") ⊎ (deps.mode ≡ codes "verified")

  passes : Strict → MayPass → (check_auth c (some deps) r body proto).refusal ≡ none
  unfolding check_auth check_signature
  passes m (inl (v, inl u)) =
      ground
        (arith, verified_not_closed deps.mode v, (is_empty_iff (r.header (codes "X-Agent-ID"))).1 u)
  passes m (inl (v, inr u)) =
      ground
        (arith, verified_not_closed deps.mode v, (is_empty_iff (r.header (sig_header proto))).1 u)
  passes m (inr (both, s)) =
      let known = s.known in
      let read = s.read in
      let decoded = s.decoded in
      let valid = s.valid in
      ground (
        arith,
        both.0,
        both.1,
        is_empty_iff (r.header (codes "X-Agent-ID")),
        is_empty_iff (r.header (sig_header proto)),
      )

  may_pass : Strict → (check_auth c (some deps) r body proto).refusal ≡ none → MayPass
  unfolding check_auth check_signature
  may_pass m h =
      let strict = strict_mode deps.mode m in
      elim (Bool-cases (is_empty (r.header (codes "X-Agent-ID")))) [
        | inl no_id ↦ inl (
          not_closed deps.mode m (ground arith),
          inl ((is_empty_iff (r.header (codes "X-Agent-ID"))).0 no_id),
        )
        | inr id ↦ elim (Bool-cases (is_empty (r.header (sig_header proto)))) [
          | inl no_sig ↦ inl (
            not_closed deps.mode m (ground arith),
            inr ((is_empty_iff (r.header (sig_header proto))).0 no_sig),
          )
          | inr sig ↦
              elim (Result-cases
                (resolve_agent (config_of deps proto) (r.header (codes "X-Agent-ID")))) [
                  | inr (e, unknown) ↦ absurd (ground arith)
                  | inl (key, known) ↦
                      elim (Option-cases (c.hex_decode (r.header (sig_header proto)))) [
                        | inl undecoded ↦ absurd (ground arith)
                        | inr (code, decoded) ↦
                            elim (Bool-cases
                              (c.verify key (hash_request c r.method r.path body) code)) [
                                | inr invalid ↦ absurd (ground arith)
                                | inl valid ↦ inr (
                                  (
                                    is_named (r.header (codes "X-Agent-ID")) id,
                                    is_named (r.header (sig_header proto)) sig,
                                  ),
                                  record {
                                    key = key;
                                    body = body;
                                    sig = code;
                                    known = known;
                                    read = refl;
                                    decoded = decoded;
                                    valid = valid;
                                  },
                                )
                              ]
                      ]
                ]
        ]
      ]

  -- In the modes closed and verified a request is let through exactly if it is signed with a signature
  -- that verifies under the agent's key, or, in the mode verified only, has no agent or no signature.
  pub check_auth-strict_iff :
      (deps.mode ≡ codes "closed") ⊎ (deps.mode ≡ codes "verified")
      → ((check_auth c (some deps) r body proto).refusal ≡ none) ↔ MayPass
  check_auth-strict_iff m = (may_pass m, passes m)
