-- ===== src/Audit/Row.antt =====
-- `EgressLog` and `EgressAnchor` of internal/storage/egress.go. Times are nanoseconds; the type of
-- floating-point numbers, the printers of package strconv and package time, and the hex digest of
-- SHA-256 are the parameter `Formats`.
use shield_agent.Prelude.{ℕ, Bool, Text}
use shield_agent.Prelude.Int.{ℤ}

pub record Formats : Type 1 where
  pub Float : Type 0
  -- `t.UTC().Format("2006-01-02T15:04:05.999999999Z07:00")`
  pub format_time : ℕ → Text
  -- `strconv.Itoa` and `strconv.FormatInt(n, 10)`
  pub itoa : ℤ → Text
  -- `strconv.FormatFloat(x, 'f', -1, 64)`
  pub format_float : Float → Text
  -- `hex.EncodeToString` of `sha256.Sum256`
  pub sha256_hex : Text → Text

module _ (fm : Formats) where
  pub record EgressLog : Type 0 where
    pub id : ℕ
    pub timestamp : ℕ
    pub correlation_id : Text
    pub provider : Text
    pub model : Text
    pub method : Text
    pub protocol : Text
    pub destination : Text
    pub status_code : ℤ
    pub request_size : ℤ
    pub response_size : ℤ
    pub latency_ms : fm.Float
    pub content_class : Text
    pub prompt_hash : Text
    pub pii_detected : Bool
    pub pii_scrubbed : Bool
    pub policy_action : Text
    pub policy_rule : Text
    pub ai_generated_tag : Bool
    pub error_detail : Text
    pub prev_hash : Text
    pub row_hash : Text

-- `next_row_id` is the smallest surviving id after the purge, or -1 if no row survived.
pub record EgressAnchor : Type 0 where
  pub anchor_timestamp : ℕ
  pub purged_up_to_id : ℕ
  pub purged_count : ℕ
  pub chain_hash : Text
  pub next_row_id : ℤ
