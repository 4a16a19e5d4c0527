-- ===== src/Auth/KeyStore.antt =====
-- The key stores of internal/auth/auth.go and `ResolveDIDKey`. A key is its bytes. `decode` is
-- `base64.StdEncoding.DecodeString`, `none` where it fails; the file's entries are as
-- `yaml.Unmarshal` reads them.
pub mod Resolution
pub mod Injective
use shield_agent.Prelude.{
  ℕ, ◌+◌, ◌==◌, Bool, true, false, not, Option, none, some, List, [], ◌∷◌, Text, codes, has_prefix,
  if◌then◌else◌, length, drop, ltb,
}
use shield_agent.Prelude.Map.{Map, empty, insert}
use shield_agent.Prelude.Result.{Result, ok, err}
use shield_agent.Auth.Base58.{base58_decode}

pub data KeyError : Type 0 where
  not_found unsupported_did_method unsupported_key_type : KeyError
  decoding : ℕ → KeyError
  invalid_base64 : Text → KeyError
  invalid_length : ℕ → KeyError

-- `ed25519.PublicKeySize`
abbrev pub public_key_size : ℕ
public_key_size = 32

pub record KeyEntry : Type 0 where
  pub id : Text
  pub key : Text

unfoldable pub add_keys :
    (Text → Option Text) → Map Text → List KeyEntry → Result KeyError (Map Text)
add_keys decode keys [] = ok keys
add_keys decode keys (e ∷ es) = elim (decode e.key) [
  | none ↦ err (invalid_base64 e.id)
  | some raw ↦ elim (length raw == public_key_size) [
    | false ↦ err (invalid_length (length raw))
    | true ↦ add_keys decode (insert e.id raw keys) es
  ]
]

-- `NewFileKeyStore`, of a file that is read and parsed
unfoldable pub new_file_key_store :
    (Text → Option Text) → List KeyEntry → Result KeyError (Map Text)
unfolding add_keys
new_file_key_store decode entries = add_keys decode empty entries

abbrev pub found : Option Text → Result KeyError Text
found none = err not_found
found (some k) = ok k

-- `(*FileKeyStore).PublicKey`
unfoldable pub public_key : Map Text → Text → Result KeyError Text
public_key keys agent_id = found (keys agent_id)

pub record CacheEntry : Type 0 where
  pub value : Result KeyError Text
  pub expiry : ℕ

-- `(*CachedKeyStore).PublicKey` at a time: the answer, the cache after it, and whether the inner
-- store was asked. `inner` is what the inner store answers now.
pub record Cached : Type 0 where
  pub answer : Result KeyError Text
  pub cache : Map CacheEntry

unfoldable pub cached_public_key :
    (Text → Result KeyError Text) → ℕ → ℕ → Map CacheEntry → Text → Cached
cached_public_key inner ttl now cache agent_id =
    let asked : Cached = record {
      answer = inner agent_id;
      cache = insert agent_id (record { value = inner agent_id; expiry = now + ttl }) cache;
    } in
    elim (cache agent_id) [
      | none ↦ asked
      | some e ↦ if ltb now e.expiry then record { answer = e.value; cache = cache } else asked
    ]

abbrev pub did_prefix : Text
did_prefix = codes "did:key:z"

-- The bytes after the multicodec prefix 0xed01
abbrev pub key_of : List ℕ → Result KeyError Text
key_of (a ∷ b ∷ key) =
    if a == 237
    then (if b == 1
        then (if length key == public_key_size then ok key else err (invalid_length (length key)))
        else err unsupported_key_type)
    else err unsupported_key_type
key_of (_ ∷ []) = err unsupported_key_type
key_of [] = err unsupported_key_type

unfoldable pub resolve_did_key : Text → Result KeyError Text
resolve_did_key did = elim (has_prefix did did_prefix) [
  | false ↦ err unsupported_did_method
  | true ↦ elim (base58_decode (drop (length did_prefix) did)) [
    | err ch ↦ err (decoding ch)
    | ok raw ↦ key_of raw
  ]
]
