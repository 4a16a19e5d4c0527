-- ===== src/Auth/Middleware.antt =====
-- internal/middleware/auth.go. The key store is what it answers at this request; the hash, the hex
-- code, the signature check and JSON are parameters. `none` for the context's result means that no
-- one attached one.
pub mod Authenticity
use shield_agent.Prelude.{
  ℕ, Bool, true, false, not, Option, none, some, List, [], ◌∷◌, Text, codes, ◌=ₜ◌, is_empty, ◌&&◌,
  ◌||◌, if◌then◌else◌, has_prefix, any,
}
use shield_agent.Prelude.Map.{Map, delete}
use shield_agent.Prelude.Result.{Result, ok, err}
use shield_agent.Jsonrpc.{Request}
use shield_agent.AuthResult.{AuthResult}
use shield_agent.Auth.KeyStore.{KeyError, resolve_did_key}

pub data AuthError : Type 0 where
  authentication_required agent_is_blocked invalid_signature_encoding verification_failed :
      AuthError
  unknown_agent : KeyError → AuthError

-- `json.Unmarshal` into a map and into a string, and `json.Marshal` of a map and of the
-- `signingPayload` of a method and its params; `none` where they fail.
pub record Json : Type 0 where
  pub as_object : Text → Option (Map Text)
  pub as_string : Text → Option Text
  pub write_object : Map Text → Option Text
  pub write_payload : Text → Text → Option Text

-- `auth.AgentIDHash`, `sha256.Sum256`, `hex.DecodeString` and `ed25519.Verify`
pub record Crypto : Type 0 where
  pub agent_id_hash : Text → Text
  pub sha256 : Text → Text
  pub hex_decode : Text → Option Text
  pub verify : Text → Text → Text → Bool

pub record AuthMiddleware : Type 0 where
  pub store : Text → Result KeyError Text
  pub mode : Text
  pub did_blocklist : List Text

abbrev pub agent_key : Text
agent_key = codes "_mcp_agent_id"

abbrev pub signature_key : Text
signature_key = codes "_mcp_signature"

abbrev pub or_empty : Option Text → Text
or_empty none = []
or_empty (some t) = t

-- `if v, ok := m[k]; ok { _ = json.Unmarshal(v, &s) }`
abbrev pub string_at : Json → Text → Map Text → Text
string_at j k m = elim (m k) [ none ↦ [] | some v ↦ or_empty (j.as_string v) ]

pub record Claims : Type 0 where
  pub agent_id : Text
  pub sig_hex : Text

abbrev pub claims_of : Json → Option (Map Text) → Claims
claims_of j none = record { agent_id = []; sig_hex = [] }
claims_of j (some m) = record {
  agent_id = string_at j agent_key m;
  sig_hex = string_at j signature_key m;
}

unfoldable pub extract_auth : Json → Request → Claims
extract_auth j req =
    if is_empty req.params
    then record { agent_id = []; sig_hex = [] }
    else claims_of j (j.as_object req.params)

abbrev pub or_raw : Option Text → Text → Text
or_raw none raw = raw
or_raw (some t) raw = t

abbrev pub without_signature : Json → Option (Map Text) → Text → Text
without_signature j none params = params
without_signature j (some m) params = or_raw (j.write_object (delete signature_key m)) params

unfoldable pub hash_payload : Json → Crypto → Request → Text
hash_payload j c req =
    let params =
      if is_empty req.params
      then req.params
      else without_signature j (j.as_object req.params) req.params in
    c.sha256 (or_empty (j.write_payload req.method params))

-- What a request leaves behind: the answer, the context's result, and the argument of `onAuth`.
pub record Outcome : Type 0 where
  pub answer : Result AuthError Request
  pub note : Option AuthResult
  pub on_auth : Text

abbrev pub with_status : Text → Option AuthResult → Option AuthResult
with_status s none = none
with_status s (some r) = some (record r { status = s })

abbrev pub with_hash : Text → Option AuthResult → Option AuthResult
with_hash h none = none
with_hash h (some r) = some (record r { agent_id_hash = h })

abbrev pub is_did : Text → Bool
is_did agent_id = has_prefix agent_id (codes "did:key:")

abbrev pub is_blocked_did : AuthMiddleware → Text → Bool
is_blocked_did a agent_id = is_did agent_id && any (λ d. agent_id =ₜ d) a.did_blocklist

unfoldable pub resolve : AuthMiddleware → Text → Result KeyError Text
resolve a agent_id = if is_did agent_id then resolve_did_key agent_id else a.store agent_id

-- In the mode closed a failure refuses the request; otherwise the request is passed on.
abbrev pub failed : AuthMiddleware → Request → Option AuthResult → AuthError → Outcome
failed a req ar e = record {
  answer = if a.mode =ₜ codes "closed" then err e else ok req;
  note = with_status (codes "failed") ar;
  on_auth = codes "failed";
}

abbrev pub unsigned : AuthMiddleware → Request → Option AuthResult → Outcome
unsigned a req ar = record {
  answer =
      if a.mode =ₜ codes "verified" || a.mode =ₜ codes "closed"
      then err authentication_required
      else ok req;
  note = with_status (codes "unsigned") ar;
  on_auth = codes "unsigned";
}

abbrev pub blocked : Option AuthResult → Outcome
blocked ar = record {
  answer = err agent_is_blocked;
  note = with_status (codes "blocked") ar;
  on_auth = codes "blocked";
}

abbrev pub verified : Crypto → Request → Option AuthResult → Text → Outcome
verified c req ar agent_id = record {
  answer = ok req;
  note = with_hash (c.agent_id_hash agent_id) (with_status (codes "verified") ar);
  on_auth = codes "verified";
}

unfoldable pub check_signature :
    Json → Crypto → AuthMiddleware → Request → Option AuthResult → Claims → Text → Outcome
check_signature j c a req ar who key = elim (c.hex_decode who.sig_hex) [
  | none ↦ failed a req ar invalid_signature_encoding
  | some bytes ↦
      if c.verify key (hash_payload j c req) bytes
      then verified c req ar who.agent_id
      else failed a req ar verification_failed
]

unfoldable pub check_claims :
    Json → Crypto → AuthMiddleware → Request → Option AuthResult → Claims → Outcome
check_claims j c a req ar who =
    if is_empty who.agent_id || is_empty who.sig_hex
    then unsigned a req ar
    else if is_blocked_did a who.agent_id
    then blocked ar
    else elim (resolve a who.agent_id) [
      | err e ↦ failed a req ar (unknown_agent e)
      | ok key ↦ check_signature j c a req ar who key
    ]

unfoldable pub process_request :
    Json → Crypto → AuthMiddleware → Request → Option AuthResult → Outcome
process_request j c a req ar = check_claims j c a req ar (extract_auth j req)
