-- ===== src/Telemetry/Examples.antt =====
-- The collector with two events.
use shield_agent.Prelude.{ℕ, ◌≡◌, true, List, [], ◌∷◌, Text, codes}
use shield_agent.Prelude.Int.{pos}
use shield_agent.Telemetry.{Event, new_collector}
use shield_agent.Telemetry.Batches.{Section, puts, flushes, batches, queue_batches, batches_refines}

abbrev event : Text → Event ℕ
event method = record {
  agent_id_hash = [];
  timestamp = 0;
  method = method;
  direction = codes "request";
  success = true;
  latency_ms = 0;
  payload_size_bytes = 0;
  auth_status = codes "unsigned";
  error_code = [];
}

abbrev sections : List (Section ℕ)
sections = puts (event (codes "a")) ∷ puts (event (codes "b")) ∷ flushes ∷ flushes ∷ []

batches_refines_example :
    batches ℕ (new_collector ℕ (event []) true (pos 5) (codes "salt")) sections
    ≡ queue_batches ℕ [] sections
batches_refines_example = batches_refines ℕ (event []) (pos 5) (codes "salt") sections
