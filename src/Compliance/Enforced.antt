-- ===== src/Compliance/Enforced.antt =====
-- The proxy with the policy and the audit log on its chain, in the mode block, on plain requests.
use shield_agent.Prelude.{
  ℕ, ◌<◌, ◌==◌, ◌≡◌, refl, inl, inr, Bool, true, false, List, [], ◌∷◌, Text, codes, is_empty,
  =ₜ_iff, any, arith, ◌⊎◌, ◌∙◌, Bool-cases,
}
use shield_agent.Prelude.Int.{pos}
use shield_agent.Prelude.Result.{Result, Result-cases}
use shield_agent.Audit.Row.{Formats, EgressLog}
use shield_agent.Audit.Store.{insert_egress_log}
use shield_agent.Audit.Chain.{HashChain, compute_row}
use shield_agent.Audit.Writer.{Limits, insert_with_retry}
use shield_agent.Audit.Writer.Retries.{insert_with_retry_cases}
use shield_agent.Audit.LogMiddleware.{egress_row}
use shield_agent.Egress.Headers.{Header}
use shield_agent.Egress.{EgressRequest, process_egress_request}
use shield_agent.Egress.Policy.{PolicyMiddleware, allowed, process_policy}
use shield_agent.Egress.Proxy.{HttpRequest, Effect, reply, after_request, reject, failure}
use shield_agent.Egress.Proxy.Setup.{Proxy, Externals, Upstream, stripped}
use shield_agent.Egress.Proxy.Http.{http_request, handle_http}
use shield_agent.Egress.Proxy.Refused.{contacts}
use shield_agent.Compliance.{
  EgressError, not_in_allow_list, is_log_write_failed, Shared, left_as, policy_middleware,
  log_middleware,
}

-- An answer with status 403
abbrev pub is_forbidden : {F : Type 0} → Effect F → Bool
is_forbidden (reply status _ _) = status == 403
is_forbidden _ = false

module _ (fm : Formats) where
  -- The proxy with both middlewares.
  abbrev pub audited :
      PolicyMiddleware
      → (ℕ → Bool)
      → Limits
      → Proxy (Shared fm) EgressError fm.Float
      → Proxy (Shared fm) EgressError fm.Float
  audited policy fails l p = record p {
    items = policy_middleware fm policy ∷ log_middleware fm fails l ∷ [];
  }

  -- The externals, with what the proxy finds in the state and in the errors of these middlewares.
  abbrev pub wired :
      Externals (Shared fm) EgressError fm.Float → Externals (Shared fm) EgressError fm.Float
  wired ex = record ex { left_as = left_as fm; is_log_write_failed = is_log_write_failed }

  -- A row that records a refusal of the request and follows the chain's last row.
  abbrev pub Records : EgressRequest → HashChain → EgressLog fm → Type 0
  Records req chain row =
      (row.policy_action ≡ codes "block")
      × (row.policy_rule ≡ codes "upstream_allow")
      × (row.destination ≡ req.host)
      × (row.status_code ≡ pos 403)
      × (row.prev_hash ≡ chain.prev_hash)

  module _ (p : Proxy (Shared fm) EgressError fm.Float)
      (ex : Externals (Shared fm) EgressError fm.Float) (policy : PolicyMiddleware) (l : Limits)
      (now : ℕ) (send : Text → Header → Result Text (Upstream fm.Float)) (s : Shared fm)
      (r : HttpRequest) where
    abbrev run : (ℕ → Bool) → Shared fm × List (Effect fm.Float)
    run fails = handle_http (audited policy fails l p) ex now send s r

    -- What the proxy does for a plain request does not depend on which attempts to write the audit
    -- row fail.
    pub handle_http_unlogged : (fails fails' : ℕ → Bool) → (run fails).1 ≡ (run fails').1
    unfolding handle_http process_egress_request policy_middleware log_middleware after_request
        reject
    handle_http_unlogged fails fails' =
        let req = http_request (audited policy fails l p) ex now r in
        elim (Bool-cases (is_empty r.scheme)) [
          | inl relative ↦ ground arith
          | inr absolute ↦ elim (Bool-cases (process_policy policy req).refused) [
            | inl refused ↦ ground arith
            | inr passed ↦ elim (Result-cases (send r.url_host (stripped ex r.headers))) [
              | inl (up, e) ↦ ground arith
              | inr (detail, e) ↦ ground arith
            ]
          ]
        ]

    -- In the policy mode block, a plain request for a host that the policy does not allow is answered
    -- with 403 and reaches no other host. Its row follows the chain, which goes on from it, and is inserted once if one of
    -- the attempts to insert it works; if they all fail, the database is as it was.
    pub handle_http_disallowed :
        (fails : ℕ → Bool)
        → policy.mode ≡ codes "block"
        → is_empty r.scheme ≡ false
        → allowed policy (http_request p ex now r).host ≡ false
        → let (s', effects) = handle_http (audited policy fails l p) (wired ex) now send s r in
          (any contacts effects ≡ false)
          × (any is_forbidden effects ≡ true)
          × (row : EgressLog fm) × Records (http_request p ex now r) s.chain row
          × (s'.chain.prev_hash ≡ row.row_hash)
          × (((s'.db ≡ (insert_egress_log fm s.db row).0)
                × ((n : ℕ) × (n < l.retries) × (fails n ≡ false)))
              ⊎ ((s'.db ≡ s.db) × ((n : ℕ) → n < l.retries → fails n ≡ true)))
    unfolding handle_http reject policy_middleware log_middleware
    handle_http_disallowed fails block absolute denied =
        let req = http_request p ex now r in
        let row =
          (compute_row fm s.chain (
            egress_row fm
              (record req { policy_action = codes "block"; policy_rule = codes "upstream_allow" })
              (failure ex.zero_ms (pos 403) (ex.error (not_in_allow_list req.host))))).1 in
        let mode = (=ₜ_iff policy.mode (codes "block")).1 block in
        let e : (handle_http (audited policy fails l p) (wired ex) now send s r).0.db
            ≡ (insert_with_retry fm fails l s.db row).db =
          ground arith in
        elim (insert_with_retry_cases fm fails s.db row l) [
          | inl (d, a, (n, low, high, works)) ↦ (
            ground arith,
            ground arith,
            row,
            (refl, refl, refl, refl, refl),
            ground arith,
            inl (e ∙ d, (n, omega arith, works)),
          )
          | inr (d, a, all) ↦ (
            ground arith,
            ground arith,
            row,
            (refl, refl, refl, refl, refl),
            ground arith,
            inr (e ∙ d, λ n h. all n (omega arith) (omega arith)),
          )
        ]
