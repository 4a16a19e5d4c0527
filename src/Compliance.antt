-- ===== src/Compliance.antt =====
-- The middlewares of internal/compliance on the egress chain, in the mode block. They share the hash
-- chain and the database; `request` is the request at the pointer that the proxy passes in, as
-- `PolicyMiddleware` has left it. `fails` says which attempts to insert a row fail.
pub mod Enforced
pub mod Bodies
mod Examples
use shield_agent.Prelude.{
  ℕ, Bool, true, false, Option, none, some, List, [], ◌∷◌, ◌++◌, Text, codes, if◌then◌else◌,
}
use shield_agent.Prelude.Result.{Result, ok, err}
use shield_agent.Audit.Row.{Formats, EgressLog}
use shield_agent.Audit.Store.{Db}
use shield_agent.Audit.Chain.{HashChain, compute_row}
use shield_agent.Audit.Writer.{WriteError, Limits, insert_with_retry}
use shield_agent.Audit.LogMiddleware.{process_log_response, egress_row, job_of, enqueue_sync}
use shield_agent.Egress.{EgressRequest, EgressResponse, EgressMiddleware}
use shield_agent.Egress.Policy.{PolicyMiddleware, Violation, Verdict, process_policy}

pub data EgressError : Type 0 where
  not_in_allow_list : Text → EgressError
  log_write_failed : WriteError → EgressError

-- `errors.Is(err, errLogWriteFailed)`
abbrev pub is_log_write_failed : EgressError → Bool
is_log_write_failed (not_in_allow_list _) = false
is_log_write_failed (log_write_failed _) = true

module _ (fm : Formats) where
  pub record Shared : Type 0 where
    pub chain : HashChain
    pub db : Db fm
    pub request : Option EgressRequest
    pub violations : List Violation

  abbrev pub left_as : Shared → EgressRequest → EgressRequest
  left_as s req = elim s.request [ none ↦ req | some r ↦ r ]

  abbrev pub decided : Shared → Verdict → Shared
  decided s v = record s { request = some v.request; violations = s.violations ++ v.violations }

  abbrev pub judged : EgressRequest → Verdict → Result EgressError EgressRequest
  judged req v = if v.refused then err (not_in_allow_list req.host) else ok v.request

  unfoldable pub policy_middleware :
      PolicyMiddleware → EgressMiddleware Shared (EgressResponse fm.Float) EgressError
  unfolding process_policy
  policy_middleware p = record {
    name = codes "policy";
    process_request =
        λ s req. (decided s (process_policy p req), judged req (process_policy p req));
    process_response = λ s req resp. (s, ok resp);
  }

  abbrev pub wrapped :
      Result WriteError (EgressResponse fm.Float) → Result EgressError (EgressResponse fm.Float)
  wrapped (ok resp) = ok resp
  wrapped (err e) = err (log_write_failed e)

  -- The row is in the database when the answer comes, since the mode block waits for the writer.
  unfoldable pub log_middleware :
      (ℕ → Bool) → Limits → EgressMiddleware Shared (EgressResponse fm.Float) EgressError
  unfolding process_log_response insert_with_retry compute_row egress_row
  log_middleware fails l = record {
    name = codes "egress_log";
    process_request = λ s req. (s, ok req);
    process_response = λ s req resp.
        let row = (compute_row fm s.chain (egress_row fm req resp)).1 in
        let (chain, answer) =
          process_log_response fm (codes "block") (enqueue_sync fm fails l s.db) s.chain req resp in
        (
          record s { chain = chain; db = (insert_with_retry fm fails l s.db row).db },
          wrapped answer,
        );
  }
