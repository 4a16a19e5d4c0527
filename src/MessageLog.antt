-- ===== src/MessageLog.antt =====
-- internal/middleware/log.go, with `ActionLog` of internal/storage/db.go. `latency` is the time since
-- a start, in the floating-point type of the latencies; `itoa` is `fmt.Sprintf("%d", n)` and `compact`
-- is what `json.Marshal` makes of the bytes of an id, `none` where it fails. The writer goroutine
-- takes the entries from the channel and inserts them; a failed insertion is only logged.
pub mod Pairing
pub mod Mixed
mod Examples
use shield_agent.Prelude.{
  ℕ, ◌+◌, Bool, true, false, Option, none, some, List, [], ◌∷◌, ◌++◌, Text, codes, is_empty, length,
  ltb, if◌then◌else◌,
}
use shield_agent.Prelude.Int.{ℤ}
use shield_agent.Prelude.Map.{Map, empty, insert, delete}
use shield_agent.Jsonrpc.{RpcId, Error, Request, Response, is_notification, marshal_id}
use shield_agent.AuthResult.{AuthResult}
use shield_agent.Telemetry.{Event}

pub record PendingRequest : Type 0 where
  pub method : Text
  pub agent_hash : Text
  pub auth_status : Text
  pub started_at : ℕ

pub record ActionLog (F : Type 0) : Type 0 where
  pub timestamp : ℕ
  pub agent_id_hash : Text
  pub method : Text
  pub direction : Text
  pub success : Bool
  pub latency_ms : F
  pub payload_size : ℕ
  pub auth_status : Text
  pub error_code : Text
  pub ip_address : Text
  pub upstream_name : Text
  pub correlation_id : Text

-- `recorded` and `messages` are the calls of the recorder and of `onMessage`, where these are given.
pub record MessageLog (F : Type 0) : Type 0 where
  pub pending : Map PendingRequest
  pub write_ch : List (ActionLog F)
  pub has_recorder : Bool
  pub recorded : List (Event F)
  pub has_on_message : Bool
  pub messages : List (Text × Text × F)

-- What the context of a call carries.
pub record Context : Type 0 where
  pub auth : Option AuthResult
  pub correlation_id : Text

abbrev pub channel_size : ℕ
channel_size = 512

abbrev pub ip_of : Option AuthResult → Text
ip_of none = []
ip_of (some ar) = ar.ip_address

abbrev pub status_of : Option AuthResult → Text
status_of none = []
status_of (some ar) = ar.status

abbrev pub hash_of : Option AuthResult → Text
hash_of none = []
hash_of (some ar) = ar.agent_id_hash

abbrev pub or_else : Text → Text → Text
or_else given fallback = if is_empty given then fallback else given

abbrev pub or_null : Option Text → Text
or_null none = codes "null"
or_null (some t) = t

unfoldable pub id_string : (Text → Option Text) → Option RpcId → Text
unfolding marshal_id
id_string compact none = codes "null"
id_string compact (some id) = or_null (compact (marshal_id (some id)))

abbrev pub no_request : PendingRequest
no_request = record { method = []; agent_hash = []; auth_status = []; started_at = 0 }

abbrev pub or_no_request : Option PendingRequest → PendingRequest
or_no_request none = no_request
or_no_request (some p) = p

abbrev pub code_of : (ℤ → Text) → Option Error → Text
code_of itoa none = []
code_of itoa (some e) = itoa e.code

abbrev pub no_error : Option Error → Bool
no_error none = true
no_error (some _) = false

module _ {F : Type 0} where
  abbrev pub new_message_log : Bool → Bool → MessageLog F
  new_message_log has_recorder has_on_message = record {
    pending = empty;
    write_ch = [];
    has_recorder = has_recorder;
    recorded = [];
    has_on_message = has_on_message;
    messages = [];
  }

  unfoldable pub set_auth_status : MessageLog F → Text → Text → Text → MessageLog F
  set_auth_status lm req_id status agent_hash = elim (lm.pending req_id) [
    | none ↦ lm
    | some p ↦ record lm {
      pending =
          insert req_id (record p { auth_status = status; agent_hash = agent_hash }) lm.pending;
    }
  ]

  -- A full channel drops the entry.
  unfoldable pub enqueue : MessageLog F → ActionLog F → MessageLog F
  enqueue lm log =
      if ltb (length lm.write_ch) channel_size
      then record lm { write_ch = lm.write_ch ++ log ∷ [] }
      else lm

  unfoldable pub note : MessageLog F → Event F → MessageLog F
  note lm e = if lm.has_recorder then record lm { recorded = lm.recorded ++ e ∷ [] } else lm

  unfoldable pub count_message : MessageLog F → Text → Text → F → MessageLog F
  count_message lm direction method ms =
      if lm.has_on_message
      then record lm { messages = lm.messages ++ (direction, method, ms) ∷ [] }
      else lm

  -- The entry, then the calls of the recorder and of `onMessage`
  unfoldable pub finish : MessageLog F → ActionLog F → Event F → Text → Text → F → MessageLog F
  unfolding enqueue note count_message
  finish lm log e direction method ms = count_message (note (enqueue lm log) e) direction method ms

  module _ (compact : Text → Option Text) (zero_ms : F) where
    abbrev pub notification_log : Context → ℕ → Request → ActionLog F
    notification_log ctx now req = record {
      timestamp = now;
      agent_id_hash = [];
      method = req.method;
      direction = codes "in";
      success = true;
      latency_ms = zero_ms;
      payload_size = length req.params;
      auth_status = status_of ctx.auth;
      error_code = [];
      ip_address = ip_of ctx.auth;
      upstream_name = [];
      correlation_id = ctx.correlation_id;
    }

    abbrev pub notification_event : ℕ → Request → Event F
    notification_event now req = record {
      agent_id_hash = [];
      timestamp = now;
      method = req.method;
      direction = codes "request";
      success = true;
      latency_ms = zero_ms;
      payload_size_bytes = length req.params;
      auth_status = codes "unsigned";
      error_code = [];
    }

    -- The request itself is passed on.
    unfoldable pub log_request : Context → ℕ → MessageLog F → Request → MessageLog F
    unfolding finish is_notification id_string
    log_request ctx now lm req =
        if is_notification req
        then finish lm (notification_log ctx now req) (notification_event now req) (codes "in")
            req.method zero_ms
        else record lm {
          pending =
              insert (id_string compact req.id)
                (record no_request { method = req.method; started_at = now }) lm.pending;
        }

  abbrev pub latency_of : F → (ℕ → F) → Option PendingRequest → F
  latency_of zero_ms latency none = zero_ms
  latency_of zero_ms latency (some p) = latency p.started_at

  module _ (itoa : ℤ → Text) (zero_ms : F) (latency : ℕ → F) where
    unfoldable pub response_log : Context → ℕ → Option PendingRequest → Response → ActionLog F
    unfolding is_empty
    response_log ctx now found resp = record {
      timestamp = now;
      agent_id_hash = or_else (hash_of ctx.auth) (or_no_request found).agent_hash;
      method = (or_no_request found).method;
      direction = codes "out";
      success = no_error resp.error;
      latency_ms = latency_of zero_ms latency found;
      payload_size = length resp.result;
      auth_status = or_else (status_of ctx.auth) (or_no_request found).auth_status;
      error_code = code_of itoa resp.error;
      ip_address = ip_of ctx.auth;
      upstream_name = [];
      correlation_id = ctx.correlation_id;
    }

    abbrev pub response_event : ActionLog F → Event F
    response_event log = record {
      agent_id_hash = log.agent_id_hash;
      timestamp = log.timestamp;
      method = log.method;
      direction = codes "response";
      success = log.success;
      latency_ms = log.latency_ms;
      payload_size_bytes = log.payload_size;
      auth_status = or_else log.auth_status (codes "unsigned");
      error_code = log.error_code;
    }

    -- The response itself is passed on.
    unfoldable pub log_response :
        (Text → Option Text) → Context → ℕ → MessageLog F → Response → MessageLog F
    unfolding response_log finish is_empty id_string
    log_response compact ctx now lm resp =
        let key = id_string compact resp.id in
        let log = response_log ctx now (lm.pending key) resp in
        finish (record lm { pending = delete key lm.pending }) log (response_event log)
          (codes "out") log.method log.latency_ms
