-- ===== src/Audit/Writer/Examples.antt =====
-- The log writer at concrete jobs.
use shield_agent.Prelude.{ℕ, ◌≤◌, List, ◌++◌, ◌≡◌, refl, true, false, [], ◌∷◌, codes, arith}
use shield_agent.Prelude.Int.{pos}
use shield_agent.Audit.Chain.{compute_row, verify}
use shield_agent.Audit.Chain.Linked.{accepted}
use shield_agent.Audit.Examples.{formats, row_at, Row}
use shield_agent.Prelude.{◌==◌, Bool}
use shield_agent.Audit.Store.{empty_db}
use shield_agent.Audit.Writer.{
  Limits, WriteJob, Writer, new_log_writer, handle_job, insert_with_retry, retry, Reach, here, next,
  queue_length, call, send, take, close, exit,
}
use shield_agent.Audit.Writer.Stored.{Stored, new_log_writer-Stored}
use shield_agent.Audit.Writer.Verified.{hash_all, verify-Reach}
use shield_agent.Egress.{EgressRequest, EgressResponse}
use shield_agent.Egress.Proxy.{failure}

abbrev hashed_row : Row
hashed_row = (compute_row formats (record { prev_hash = [] }) (row_at 10)).1

abbrev job : WriteJob formats
job = record { log = hashed_row; acked = true }

abbrev limits : Limits
limits = record { capacity = 2; retries = 3; backoff = 50 }

abbrev no_failure : ℕ → Bool
no_failure _ = false

abbrev empty_writer : Writer formats
empty_writer = new_log_writer formats (empty_db formats)

abbrev called : Writer formats
called = record empty_writer { callers = job ∷ [] }

abbrev queued : Writer formats
queued = record empty_writer { buffer = job ∷ []; sent = job ∷ [] }

abbrev written : Writer formats
written = handle_job formats no_failure limits queued job []

Reach-called : Reach formats limits empty_writer called
Reach-called = next here (call job refl)

Reach-queued : Reach formats limits empty_writer queued
Reach-queued = next Reach-called (send [] [] job refl (omega arith))

Reach-written : Reach formats limits empty_writer written
Reach-written = next Reach-queued (take no_failure job [] refl refl)

new_log_writer-Stored_example :
    (taken : List (WriteJob formats)) × (written.sent ≡ taken ++ written.buffer)
    × (queue_length formats written ≤ limits.capacity)
    × Stored formats (empty_db formats) taken written
new_log_writer-Stored_example =
    new_log_writer-Stored formats limits (empty_db formats) written Reach-written

verify-Reach_example : verify formats written.db ≡ accepted formats 0 1
unfolding handle_job insert_with_retry retry hash_all
verify-Reach_example = verify-Reach formats limits written (row_at 10 ∷ []) Reach-written refl refl

abbrev closed_writer : Writer formats
closed_writer = record queued { done = true }

abbrev gone : Writer formats
gone = record called { done = true; exited = true }

Reach-gone : Reach formats limits empty_writer gone
Reach-gone = next (next Reach-called close) (exit refl refl refl)

abbrev outgoing : EgressRequest
outgoing = record {
  destination = codes "api.openai.com:443";
  host = codes "api.openai.com";
  port = pos 443;
  method = codes "POST /v1/chat";
  protocol = codes "mitm";
  provider = codes "openai";
  started_at = 10;
  body = [];
  policy_action = codes "allow";
  policy_rule = [];
  correlation_id = [];
}

abbrev answer : EgressResponse ℕ
answer = failure 5 (pos 200) []

abbrev second_works : ℕ → Bool
second_works n = n == 0
