-- ===== src/Auth/Examples.antt =====
-- Authentication at concrete inputs.
use shield_agent.Prelude.{
  is_empty, false, ◌↔◌, ◌≡◌, refl, ◌↔◌, none, some, [], ◌∷◌, Text, codes, ◌=ₜ◌, has_prefix,
  if◌then◌else◌,
}
use shield_agent.Prelude.Map.{Map, empty, insert}
use shield_agent.Prelude.Result.{Result, ok}
use shield_agent.Jsonrpc.{Request, version}
use shield_agent.AuthResult.{no_result}
use shield_agent.Auth.Base58.{
  base58_decode, convert, lookup, add_digit, spill, leading_zeros, reversed,
}
use shield_agent.Auth.Base58.Value.{number_from, base58_from, base58_decode-value}
use shield_agent.Auth.KeyStore.{KeyError, resolve_did_key}
use shield_agent.Auth.KeyStore.Injective.{resolve_did_key-injective}
use shield_agent.Auth.Middleware.{
  extract_auth, is_blocked_did, Json, Crypto, AuthMiddleware, process_request, agent_key,
  signature_key,
}
use shield_agent.Auth.Middleware.Authenticity.{
  IsAuthentic, process_request-closed_iff, process_request-mode_verified_iff,
}
use shield_agent.Prelude.Result.{err}
use shield_agent.Auth.KeyStore.{not_found}
use shield_agent.Auth.Stores.{Store}
use shield_agent.Auth.HttpAuth.{Config, HttpCall}
use shield_agent.Prelude.{map, List}
use shield_agent.Prelude.{true}
use shield_agent.Auth.Stores.{db_public_key}
use shield_agent.Auth.KeyTable.{AgentKey, deactivate, delete_agent_key}
use shield_agent.Auth.KeyTable.Revoked.{
  Change, registers, change_all, key_in, db_public_key_deleted,
}

-- "2g" is 97, the byte of "a".
base58_decode-value_example : number_from 0 (97 ∷ []) ≡ base58_from 0 (codes "2g")
unfolding base58_decode convert lookup add_digit spill leading_zeros reversed
base58_decode-value_example = base58_decode-value (codes "2g") (97 ∷ []) refl

abbrev did : Text
did = codes "did:key:z6MkhaXgBZDvotDkL5257faiztiGiC2QtKLGpbnnEGta2doK"

abbrev did_key : Text
did_key =
    46 ∷ 111 ∷ 204 ∷ 227 ∷ 103 ∷ 1 ∷ 220 ∷ 121 ∷ 20 ∷ 136 ∷ 224 ∷ 208 ∷ 177 ∷ 116 ∷ 92 ∷ 193 ∷ 227
    ∷ 58 ∷ 76 ∷ 28 ∷ 159 ∷ 204 ∷ 65 ∷ 198 ∷ 59 ∷ 211 ∷ 67 ∷ 219 ∷ 190 ∷ 9 ∷ 112 ∷ 230 ∷ []

resolve_did_key-injective_example : did ≡ did
unfolding resolve_did_key has_prefix base58_decode convert lookup add_digit spill leading_zeros
    reversed
resolve_did_key-injective_example = resolve_did_key-injective did did did_key refl refl

abbrev keys : Text → Result KeyError Text
keys _ = ok (codes "old")

abbrev new_keys : Text → Result KeyError Text
new_keys _ = ok (codes "new")

-- A reader for the params "s" (signed) and "u" (unsigned), with one byte for each string.
abbrev unsigned_params : Map Text
unsigned_params = insert agent_key (codes "a") empty

abbrev json : Json
json = record {
  as_object = λ t.
      if t =ₜ codes "s"
      then some (insert signature_key (codes "x") unsigned_params)
      else some unsigned_params;
  as_string = λ t. some t;
  write_object = λ m. some (codes "u");
  write_payload = λ method params. some params;
}

-- A signature that holds for every hash.
abbrev crypto : Crypto
crypto = record {
  agent_id_hash = λ t. t;
  sha256 = λ t. t;
  hex_decode = λ t. some t;
  verify = λ key hash sig. sig =ₜ codes "x";
}

abbrev closed : AuthMiddleware
closed = record { store = keys; mode = codes "closed"; did_blocklist = [] }

abbrev lenient : AuthMiddleware
lenient = record { store = keys; mode = codes "verified"; did_blocklist = [] }

abbrev signed : Request
signed = record { jsonrpc = version; id = none; method = codes "ping"; params = codes "s" }

abbrev unsigned : Request
unsigned = record { jsonrpc = version; id = none; method = codes "ping"; params = codes "u" }

process_request-closed_iff_example :
    ((process_request json crypto closed signed (some no_result)).answer ≡ ok signed)
    ↔ ((signed ≡ signed) × IsAuthentic json crypto closed signed)
process_request-closed_iff_example =
    process_request-closed_iff json crypto closed signed signed (some no_result) refl

process_request-mode_verified_iff_example :
    ((process_request json crypto lenient signed (some no_result)).answer ≡ ok signed) ↔ (
      (is_empty (extract_auth json signed).agent_id ≡ false)
      × (is_empty (extract_auth json signed).sig_hex ≡ false)
      × (is_blocked_did lenient (extract_auth json signed).agent_id ≡ false))
process_request-mode_verified_iff_example =
    process_request-mode_verified_iff json crypto lenient signed (some no_result) refl

abbrev unknown : Store
unknown _ = err not_found

abbrev known : Store
known _ = ok (codes "k")

abbrev config : Config
config = record {
  store = known;
  mode = codes "closed";
  agent_id_header = codes "X-Agent-ID";
  signature_header = codes "X-A2A-Signature";
}

abbrev http_call : HttpCall
http_call = record {
  method = codes "POST";
  path = codes "/tasks";
  header = λ _. codes "a";
  body = some (codes "{}");
}

abbrev agents : List AgentKey
agents =
    record { id = codes "a"; public_key = codes "k"; label = []; created_at = []; active = true }
    ∷ []

abbrev retired : List AgentKey
retired = map (deactivate (codes "a")) agents

abbrev again : List Change
again = registers (codes "a") (codes "k2") [] [] ∷ registers (codes "b") (codes "k3") [] [] ∷ []

db_public_key_deleted_example :
    db_public_key (key_in (change_all retired again)) (λ t. some t) (codes "a") ≡ err not_found
unfolding delete_agent_key ◌=ₜ◌
db_public_key_deleted_example =
    db_public_key_deleted agents retired (codes "a") (λ t. some t) again refl
