-- ===== src/Auth/HttpAuth/Log.antt =====
-- The loggers of internal/middleware/a2a/log.go and internal/middleware/httpapi/log.go, whose code is the
-- same but for the label of a request. `latency` is the time since a start in whole milliseconds, `itoa`
-- is `strconv.Itoa` and `method_in` the method that `encoding/json` reads in a body, `none` where it
-- fails. The writer only inserts what it takes from the channel.
use shield_agent.Prelude.{
  ℕ, Bool, Option, none, some, List, [], ◌∷◌, ◌++◌, Text, codes, is_empty, length, ltb, leb,
  if◌then◌else◌,
}
use shield_agent.MessageLog.{ActionLog, channel_size}
use shield_agent.Telemetry.{Event}

-- `recorded` is what the recorder was given, where there is one.
pub record HttpLog (F : Type 0) : Type 0 where
  pub write_ch : List (ActionLog F)
  pub has_recorder : Bool
  pub recorded : List (Event F)

pub record LoggedCall : Type 0 where
  pub method : Text
  pub path : Text
  pub agent_id : Text
  pub body : Text

-- `extractA2AMethod`
unfoldable pub extract_a2a_method : (Text → Option Text) → Text → Text
unfolding is_empty
extract_a2a_method method_in body = elim (method_in body) [
  | none ↦ codes "unknown"
  | some m ↦ if is_empty m then codes "unknown" else m
]

abbrev pub api_method : LoggedCall → Text
api_method c = c.method ++ codes " " ++ c.path

unfoldable pub http_error_code : (ℕ → Text) → ℕ → Text
http_error_code itoa status = if leb 400 status then itoa status else []

abbrev pub agent_hash : (Text → Text) → Text → Text
unfolding is_empty
agent_hash agent_id_hash agent = if is_empty agent then [] else agent_id_hash agent

module _ {F : Type 0} where
  -- A full channel drops the entry.
  unfoldable pub enqueue_http : HttpLog F → ActionLog F → HttpLog F
  enqueue_http lm log =
      if ltb (length lm.write_ch) channel_size
      then record lm { write_ch = lm.write_ch ++ log ∷ [] }
      else lm

  abbrev pub record_http : HttpLog F → Event F → HttpLog F
  record_http lm e = if lm.has_recorder then record lm { recorded = lm.recorded ++ e ∷ [] } else lm

  -- What `WrapHandler` does after the next handler has answered with a status
  unfoldable pub log_http :
      (ℕ → Text) → (Text → Text) → Text → ℕ → F → HttpLog F → LoggedCall → ℕ → HttpLog F
  unfolding enqueue_http http_error_code is_empty
  log_http itoa agent_id_hash label now latency lm c status =
      let hash = agent_hash agent_id_hash c.agent_id in
      record_http
        (enqueue_http lm (record {
          timestamp = now;
          agent_id_hash = hash;
          method = label;
          direction = codes "in";
          success = ltb status 400;
          latency_ms = latency;
          payload_size = length c.body;
          auth_status = [];
          error_code = http_error_code itoa status;
          ip_address = [];
          upstream_name = [];
          correlation_id = [];
        }))
        (record {
          agent_id_hash = hash;
          timestamp = now;
          method = label;
          direction = codes "request";
          success = ltb status 400;
          latency_ms = latency;
          payload_size_bytes = length c.body;
          auth_status = [];
          error_code = [];
        })

  unfoldable pub log_a2a :
      (Text → Option Text)
      → (ℕ → Text)
      → (Text → Text)
      → ℕ
      → F
      → HttpLog F
      → LoggedCall
      → ℕ
      → HttpLog F
  unfolding log_http extract_a2a_method
  log_a2a method_in itoa agent_id_hash now latency lm c status =
      log_http itoa agent_id_hash (extract_a2a_method method_in c.body) now latency lm c status

  unfoldable pub log_http_api :
      (ℕ → Text) → (Text → Text) → ℕ → F → HttpLog F → LoggedCall → ℕ → HttpLog F
  unfolding log_http
  log_http_api itoa agent_id_hash now latency lm c status =
      log_http itoa agent_id_hash (api_method c) now latency lm c status
