-- ===== src/Guard/Request/Decision.antt =====
-- Which requests the guard lets through, and what a refusal leaves behind.
use shield_agent.Prelude.{
  ℕ, ◌≤◌, ◌<◌, ◌≡◌, refl, ◌≢◌, ◌↔◌, ◌⊎◌, inl, inr, true, false, Option, none, some, [], =ₜ_iff,
  is_empty_iff, arith, Option-cases, length,
}
use shield_agent.Prelude.Result.{ok, err}
use shield_agent.Prelude.Int.{positive, pos_part}
use shield_agent.Jsonrpc.{Request, version}
use shield_agent.AuthResult.{AuthResult}
use shield_agent.Guard.RateLimiter.{RateLimiter, allow_with_limit}
use shield_agent.Guard.BruteForce.{BruteForceTracker, is_blocked}
use shield_agent.Guard.Request.{
  GuardError, Multipliers, Guard, effective_limit, process_request, check_json, check_size,
  check_rate,
}

module _ (m : Multipliers) (g : Guard m) (now : ℕ) (ar : Option AuthResult) (req : Request) where
  -- What a request needs to pass.
  pub record Admissible : Type 0 where
    pub versioned : g.validate_json ≡ true → (req.jsonrpc ≡ []) ⊎ (req.jsonrpc ≡ version)
    pub named : g.validate_json ≡ true → req.method ≢ []
    pub fits : positive g.max_body_size ≡ true → length req.params ≤ pos_part g.max_body_size
    pub unblocked :
        (bf : BruteForceTracker)
        → g.brute_force ≡ some bf
        → (is_blocked bf now req.method).1 ≡ false
    pub slot :
        (rl : RateLimiter)
        → g.limiter ≡ some rl
        → (limit : ℕ) × (effective_limit m g ar rl.max_requests ≡ some limit)
          × ((allow_with_limit rl now req.method limit).1 ≡ true)

  check_json-none :
      check_json m g req ≡ none
      → (g.validate_json ≡ true → (req.jsonrpc ≡ []) ⊎ (req.jsonrpc ≡ version))
        × (g.validate_json ≡ true → req.method ≢ [])
  check_json-none h =
      ground (arith, is_empty_iff req.jsonrpc, is_empty_iff req.method, =ₜ_iff req.jsonrpc version)

  check_size-none :
      check_size m g req ≡ none
      → positive g.max_body_size ≡ true
      → length req.params ≤ pos_part g.max_body_size
  check_size-none h = ground arith

  json_of_Admissible : Admissible → check_json m g req ≡ none
  json_of_Admissible a = ground (
    arith,
    is_empty_iff req.jsonrpc,
    is_empty_iff req.method,
    =ₜ_iff req.jsonrpc version,
    a.versioned,
    a.named,
  )

  size_of_Admissible : Admissible → check_size m g req ≡ none
  size_of_Admissible a = ground (arith, a.fits)

  rate_of_Admissible :
      (g' : Guard m)
      → Admissible
      → g'.limiter ≡ g.limiter
      → g'.reputation ≡ g.reputation
      → (check_rate m g' now ar req g.limiter).1 ≡ ok req
  unfolding effective_limit
  rate_of_Admissible g' a l r = elim (Option-cases g.limiter) [
    | inl unlimited ↦ ground arith
    | inr (rl, limited) ↦ let (limit, found, passed) = a.slot rl limited in ground arith
  ]

  process_request-Admissible :
      (r : Request) → (process_request m g now ar req).1 ≡ ok r → (r ≡ req) × Admissible
  unfolding process_request effective_limit
  process_request-Admissible r h =
      let (versioned, named) = check_json-none (ground arith) in
      let fits = check_size-none (ground arith) in
      (
        ground arith,
        record {
          versioned = versioned;
          named = named;
          fits = fits;
          unblocked = λ bf e. ground arith;
          slot = λ rl e. elim (Option-cases (effective_limit m g ar rl.max_requests)) [
            | inl refused ↦ absurd (ground arith)
            | inr (limit, found) ↦ (limit, found, ground arith)
          ];
        },
      )

  Admissible-process_request : Admissible → (process_request m g now ar req).1 ≡ ok req
  unfolding process_request
  Admissible-process_request a = elim (Option-cases g.brute_force) [
    | inl untracked ↦
        ground (arith, json_of_Admissible a, size_of_Admissible a, rate_of_Admissible g a refl refl)
    | inr (bf, tracked) ↦ ground (
      arith,
      json_of_Admissible a,
      size_of_Admissible a,
      a.unblocked bf tracked,
      rate_of_Admissible (record g { brute_force = some (is_blocked bf now req.method).0 }) a refl
          refl,
    )
  ]

  -- The guard returns the request itself exactly if the envelope and the size are in order, the
  -- method is not blocked and, where there is a limiter, the effective limit leaves a slot.
  pub process_request_iff : ((process_request m g now ar req).1 ≡ ok req) ↔ Admissible
  process_request_iff = (λ h. (process_request-Admissible req h).1, Admissible-process_request)

  -- A request that comes through is the one that came in.
  pub process_request_same : (r : Request) → (process_request m g now ar req).1 ≡ ok r → r ≡ req
  process_request_same r h = (process_request-Admissible r h).0

  -- A refused request takes no slot: the limiter is as it was, whatever the reason.
  pub limiter-process_request_refused :
      (e : GuardError)
      → (process_request m g now ar req).1 ≡ err e
      → (process_request m g now ar req).0.limiter ≡ g.limiter
  unfolding process_request allow_with_limit effective_limit is_blocked
  limiter-process_request_refused e h = ground arith

  -- With a positive limit the reputation never scales it down to nothing: it blocks the agent, or
  -- leaves at least one request for each window.
  pub effective_limit_pos :
      (max_requests limit : ℕ)
      → 0 < max_requests
      → effective_limit m g ar max_requests ≡ some limit
      → 0 < limit
  unfolding effective_limit
  effective_limit_pos max_requests limit pos h = ground arith
