-- ===== src/AuthResult.antt =====
-- `AuthResult` of internal/middleware/auth.go: what the auth middleware notes about a request in
-- its context, for the middlewares after it. Without `WithAuthResult` the context holds none.
use shield_agent.Prelude.{Text, codes}

pub record AuthResult : Type 0 where
  pub agent_id_hash : Text
  pub status : Text
  pub ip_address : Text

-- `&AuthResult{}`
abbrev pub no_result : AuthResult
no_result = record { agent_id_hash = codes ""; status = codes ""; ip_address = codes "" }
