-- ===== src/Audit/LogMiddleware.antt =====
-- internal/compliance/egress_log_mw.go. `enqueue` is what `Enqueue` or `EnqueueSync` of the log writer
-- answers for a job.
use shield_agent.Prelude.{
  ℕ, ◌<◌, ◌≡◌, ◌↔◌, inl, inr, Bool, true, false, Text, codes, ◌=ₜ◌, is_empty, if◌then◌else◌, arith,
}
use shield_agent.Prelude.Result.{Result, ok, err}
use shield_agent.Audit.Row.{Formats, EgressLog}
use shield_agent.Audit.Store.{Db}
use shield_agent.Audit.Chain.{HashChain, compute_row}
use shield_agent.Audit.Writer.{WriteError, insert_failed, Limits, WriteJob, insert_with_retry}
use shield_agent.Audit.Writer.Retries.{insert_with_retry_cases}
use shield_agent.Egress.{EgressRequest, EgressResponse}

abbrev pub or_allow : Text → Text
or_allow action = if is_empty action then codes "allow" else action

abbrev pub is_blocking : Text → Bool
is_blocking mode = mode =ₜ codes "block"

module _ (fm : Formats) where
  unfoldable pub egress_row : EgressRequest → EgressResponse fm.Float → EgressLog fm
  unfolding is_empty
  egress_row req resp = record {
    id = 0;
    timestamp = req.started_at;
    correlation_id = req.correlation_id;
    provider = req.provider;
    model = resp.model;
    method = req.method;
    protocol = req.protocol;
    destination = req.host;
    status_code = resp.status_code;
    request_size = resp.request_size;
    response_size = resp.response_size;
    latency_ms = resp.latency_ms;
    content_class = resp.content_class;
    prompt_hash = resp.prompt_hash;
    pii_detected = resp.pii_detected;
    pii_scrubbed = resp.pii_scrubbed;
    policy_action = or_allow req.policy_action;
    policy_rule = req.policy_rule;
    ai_generated_tag = resp.ai_generated;
    error_detail = resp.error_detail;
    prev_hash = codes "";
    row_hash = codes "";
  }

  abbrev pub job_of : Text → EgressLog fm → WriteJob fm
  job_of mode row = record { log = row; acked = is_blocking mode }

  -- In the mode block an error of the writer is returned; in the others it is logged.
  abbrev pub answer_logged :
      Text
      → EgressResponse fm.Float
      → Result WriteError ℕ
      → Result WriteError (EgressResponse fm.Float)
  answer_logged mode resp (ok _) = ok resp
  answer_logged mode resp (err e) = if is_blocking mode then err e else ok resp

  unfoldable pub process_log_response :
      Text
      → (WriteJob fm → Result WriteError ℕ)
      → HashChain
      → EgressRequest
      → EgressResponse fm.Float
      → HashChain × Result WriteError (EgressResponse fm.Float)
  unfolding compute_row egress_row ◌=ₜ◌
  process_log_response mode enqueue chain req resp =
      let (chain', row) = compute_row fm chain (egress_row req resp) in
      (chain', answer_logged mode resp (enqueue (job_of mode row)))

  -- What `EnqueueSync` answers for a job that the writer takes up.
  abbrev pub enqueue_sync : (ℕ → Bool) → Limits → Db fm → WriteJob fm → Result WriteError ℕ
  enqueue_sync fails l db job = (insert_with_retry fm fails l db job.log).answer

  refused_ok :
      (resp : EgressResponse fm.Float)
      → Path (Result WriteError (EgressResponse fm.Float)) (err insert_failed) (ok resp)
      → ⊥
  refused_ok resp e = cc

  both : (b : Bool) → b ≡ true → b ≡ false → ⊥
  both b e f = ground arith

  -- In the mode block a response is passed on exactly if one of the attempts to insert its row works.
  pub process_log_response-block_iff :
      (fails : ℕ → Bool) (l : Limits) (db : Db fm) (chain : HashChain) (req : EgressRequest)
      (resp : EgressResponse fm.Float)
      → ((process_log_response (codes "block") (enqueue_sync fails l db) chain req resp).1
          ≡ ok resp)
        ↔ ((n : ℕ) × (n < l.retries) × (fails n ≡ false))
  unfolding process_log_response ◌=ₜ◌
  process_log_response-block_iff fails l db chain req resp =
      let row = (compute_row fm chain (egress_row req resp)).1 in
      elim (insert_with_retry_cases fm fails db row l) [
        | inl (d, a, (n, low, high, works)) ↦ (λ _. (n, omega arith, works), λ _. ground arith)
        | inr (d, a, all) ↦ (
          λ h. absurd (refused_ok resp (ground arith)),
          λ (n, high, works). absurd (both (fails n) (all n (omega arith) (omega arith)) works),
        )
      ]
