-- ===== src/Token/Middleware/Admission.antt =====
-- Which tokens the middleware admits.
use shield_agent.Prelude.{
  ℕ, ◌<◌, ◌≡◌, refl, ◌≢◌, ◌↔◌, inl, inr, Bool, true, false, some, List, [], ◌∷◌, Text, ◌=ₜ◌, =ₜ_iff,
  is_empty_iff, arith, Bool-cases, any,
}
use shield_agent.Prelude.Int.{positive, pos_part}
use shield_agent.Prelude.Result.{ok, err}
use shield_agent.Jsonrpc.{Request}
use shield_agent.Token.{
  Token, Latencies, Store, get_by_hash, is_expired, is_method_allowed, count_usage, hour, month,
  find, deactivate, revoke,
}
use shield_agent.Token.Middleware.{revoked, no_faults, authorize, process_request}

module _ (lt : Latencies) (hash_token : Text → Text) (s : Store lt) (now : ℕ) (raw : Text)
    (req : Request) where
  -- The token is the one with this hash, and every check passes.
  pub record Admits (t : Token) : Type 0 where
    pub found : get_by_hash lt s (hash_token raw) ≡ some t
    pub active : t.active ≡ true
    pub unexpired : is_expired t now ≡ false
    pub allowed : is_method_allowed t req.method ≡ true
    pub hourly :
        positive t.quota_hourly ≡ true → count_usage lt s now t.id hour < pos_part t.quota_hourly
    pub monthly :
        positive t.quota_monthly ≡ true → count_usage lt s now t.id month < pos_part t.quota_monthly

  -- With a working database, a token is authorized exactly if it is the one with the hash of the
  -- request's token, is active and not expired, allows the method, and has used less than each
  -- quota that is set.
  pub authorize_iff :
      (t : Token) → (authorize lt hash_token s no_faults now raw req ≡ ok t) ↔ Admits t
  unfolding authorize
  authorize_iff t = (
    λ h. record {
      found = ground arith;
      active = ground arith;
      unexpired = ground arith;
      allowed = ground arith;
      hourly = λ on. ground arith;
      monthly = λ on. ground arith;
    },
    λ a. ground (arith, a.hourly, a.monthly),
  )

find-deactivate :
    (p : Token → Bool) (id : Text) (ts : List Token) (t : Token)
    → ((u : Token) → p (record u { active = false }) ≡ p u)
    → find p ts ≡ some t
    → t.id ≡ id
    → find p (deactivate id ts) ≡ some (record t { active = false })
find-deactivate p id [] t blind e same = cc
find-deactivate p id (u ∷ ts) t blind e same = elim (Bool-cases (p u)) [
  | inl here ↦ ground (arith, blind u, =ₜ_iff u.id id)
  | inr other ↦ elim (Bool-cases (u.id =ₜ id)) [
    | inl hit ↦ ground (arith, blind u, find-deactivate p id ts t blind (ground arith) same)
    | inr miss ↦ ground (arith, find-deactivate p id ts t blind (ground arith) same)
  ]
]

any-find :
    (p : Token → Bool) (id : Text) (ts : List Token) (t : Token)
    → find p ts ≡ some t
    → t.id ≡ id
    → any (λ u. u.id =ₜ id) ts ≡ true
any-find p id [] t e same = cc
any-find p id (u ∷ ts) t e same = ground (arith, =ₜ_iff u.id id, any-find p id ts t)

module _ (lt : Latencies) (hash_token : Text → Text) (s : Store lt) where
  get_by_hash-revoke :
      (hash : Text) (t : Token)
      → get_by_hash lt s hash ≡ some t
      → get_by_hash lt (revoke lt s t.id).0 hash ≡ some (record t { active = false })
  unfolding get_by_hash revoke
  get_by_hash-revoke hash t found =
      rw (any-find (λ u. u.token_hash =ₜ hash) t.id s.tokens t found refl)
        (find-deactivate (λ u. u.token_hash =ₜ hash) t.id s.tokens t (λ u. refl) found refl)

  -- With a working database, once a token is revoked, every request that brings it is refused as
  -- revoked, at any time and for any method.
  pub process_request-revoke :
      (now : ℕ) (raw : Text) (req : Request) (t : Token)
      → raw ≢ []
      → get_by_hash lt s (hash_token raw) ≡ some t
      → (process_request lt hash_token (revoke lt s t.id).0 no_faults now raw req).1 ≡ err revoked
  unfolding process_request authorize
  process_request-revoke now raw req t given found =
      ground (arith, get_by_hash-revoke (hash_token raw) t found, is_empty_iff raw)
