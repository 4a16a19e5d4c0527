-- ===== src/Jsonrpc.antt =====
-- The messages of internal/jsonrpc/message.go. JSON values that the program only passes on are
-- their bytes; an absent pointer is `none`.
use shield_agent.Prelude.{
  Bool, true, Option, none, some, Text, codes, ◌=ₜ◌, is_empty, if◌then◌else◌,
}
use shield_agent.Prelude.Int.{ℤ, negsuc}

pub record RpcId : Type 0 where
  pub raw : Text

pub record Error : Type 0 where
  pub code : ℤ
  pub message : Text
  pub extra : Text

pub record Request : Type 0 where
  pub jsonrpc : Text
  pub id : Option RpcId
  pub method : Text
  pub params : Text

pub record Response : Type 0 where
  pub jsonrpc : Text
  pub id : Option RpcId
  pub result : Text
  pub error : Option Error

abbrev pub version : Text
version = codes "2.0"

-- -32000
abbrev pub code_auth_failed : ℤ
code_auth_failed = negsuc 31999

unfoldable pub null_id : RpcId
null_id = record { raw = codes "null" }

unfoldable pub is_null : Option RpcId → Bool
unfolding ◌=ₜ◌
is_null none = true
is_null (some i) = i.raw =ₜ codes "null"

-- `(*ID).MarshalJSON`
unfoldable pub marshal_id : Option RpcId → Text
unfolding is_empty
marshal_id none = codes "null"
marshal_id (some i) = if is_empty i.raw then codes "null" else i.raw

-- `(*ID).UnmarshalJSON` copies the bytes.
unfoldable pub unmarshal_id : Text → RpcId
unmarshal_id bytes = record { raw = bytes }

-- `r.ID == nil || r.ID.IsNull()`
unfoldable pub is_notification : Request → Bool
unfolding is_null
is_notification r = is_null r.id

unfoldable pub error_response : Option RpcId → ℤ → Text → Response
error_response id code message = record {
  jsonrpc = version;
  id = id;
  result = codes "";
  error = some (record { code = code; message = message; extra = codes "" });
}
