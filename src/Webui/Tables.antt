-- ===== src/Webui/Tables.antt =====
-- The tables of the dashboard, internal/webui/api.go: upstreams and agent keys. `decode` reads a body,
-- `none` where it is not JSON; `created` is the time that the database fills in.
use shield_agent.Prelude.{
  ℕ, ◌==◌, ◌||◌, Bool, false, not, Option, none, some, List, Text, codes, ◌=ₜ◌, is_empty,
  has_prefix, length, if◌then◌else◌,
}
use shield_agent.Prelude.Result.{ok, err}
use shield_agent.Proxy.Router.{trim_prefix}
use shield_agent.Auth.KeyStore.{public_key_size}
use shield_agent.Auth.KeyTable.{AgentKey, insert_agent_key, list_agent_keys, delete_agent_key}
use shield_agent.Storage.{
  UpstreamRow, list_upstreams, insert_upstream, update_upstream, delete_upstream,
}
use shield_agent.Webui.{
  Call, Dashboard, Reply, reply, not_allowed, failure, missing, confirmed, confirmed_of,
  upstreams_found, keys_found,
}

abbrev pub with_transport : UpstreamRow → UpstreamRow
unfolding is_empty
with_transport u =
    if is_empty u.transport then record u { transport = codes "streamable-http" } else u

module _ {V : Type 0} (decode : Text → Option UpstreamRow)
    (by_created : List UpstreamRow → List UpstreamRow) (now : ℕ) where
  unfoldable pub post_upstream : Dashboard V → UpstreamRow → Dashboard V × Reply
  unfolding insert_upstream is_empty
  post_upstream d u =
      if is_empty u.name || is_empty u.url
      then (d, reply 400 (failure (codes "name and url are required")))
      else elim (insert_upstream now (with_transport u) d.upstreams) [
        | err e ↦ (d, reply 409 (failure (codes "upstream name already exists")))
        | ok rows ↦ (
          record d { upstreams = rows },
          reply 201 (confirmed_of (codes "upstream created") u.name),
        )
      ]

  unfoldable pub handle_upstreams : Dashboard V → Call → Dashboard V × Reply
  unfolding post_upstream list_upstreams ◌=ₜ◌
  handle_upstreams d c =
      if c.method =ₜ codes "GET"
      then (d, reply 200 (upstreams_found (list_upstreams by_created d.upstreams)))
      else if c.method =ₜ codes "POST"
      then elim (decode c.body) [
        | none ↦ (d, reply 400 (failure (codes "name and url are required")))
        | some u ↦ post_upstream d u
      ]
      else (d, not_allowed)

  unfoldable pub put_upstream : Text → Dashboard V → UpstreamRow → Dashboard V × Reply
  unfolding update_upstream is_empty
  put_upstream name d u =
      if is_empty u.url
      then (d, reply 400 (failure (codes "url is required")))
      else elim (update_upstream name u d.upstreams) [
        | err e ↦ (d, reply 404 (missing name))
        | ok rows ↦
            (record d { upstreams = rows }, reply 200 (confirmed (codes "upstream updated")))
      ]

  unfoldable pub remove_upstream : Text → Dashboard V → Dashboard V × Reply
  unfolding delete_upstream
  remove_upstream name d = elim (delete_upstream name d.upstreams) [
    | err e ↦ (d, reply 404 (missing name))
    | ok rows ↦ (record d { upstreams = rows }, reply 200 (confirmed (codes "upstream deleted")))
  ]

  unfoldable pub handle_upstream_by_name : Dashboard V → Call → Dashboard V × Reply
  unfolding put_upstream remove_upstream has_prefix is_empty ◌=ₜ◌
  handle_upstream_by_name d c =
      let name = trim_prefix c.path (codes "/api/upstreams/") in
      if is_empty name
      then (d, reply 400 (failure (codes "upstream name required")))
      else if c.method =ₜ codes "PUT"
      then elim (decode c.body) [
        | none ↦ (d, reply 400 (failure (codes "url is required")))
        | some u ↦ put_upstream name d u
      ]
      else if c.method =ₜ codes "DELETE"
      then remove_upstream name d
      else (d, not_allowed)

-- The body of a new key
pub record NewKey : Type 0 where
  pub id : Text
  pub public_key : Text
  pub label : Text

abbrev pub is_key_size : Option Text → Bool
is_key_size none = false
is_key_size (some raw) = length raw == public_key_size

module _ {V : Type 0} (decode : Text → Option NewKey) (base64 : Text → Option Text)
    (newest_first : List AgentKey → List AgentKey) (created : Text) where
  unfoldable pub post_key : Dashboard V → NewKey → Dashboard V × Reply
  unfolding insert_agent_key is_empty
  post_key d k =
      if is_empty k.id || is_empty k.public_key
      then (d, reply 400 (failure (codes "id and public_key are required")))
      else if not (is_key_size (base64 k.public_key))
      then (d, reply 400 (failure (codes "public_key must be base64-encoded 32-byte Ed25519 key")))
      else elim (insert_agent_key d.keys k.id k.public_key k.label created) [
        | err e ↦ (d, reply 409 (failure (codes "agent ID already exists")))
        | ok rows ↦
            (record d { keys = rows }, reply 201 (confirmed_of (codes "key registered") k.id))
      ]

  unfoldable pub handle_keys : Dashboard V → Call → Dashboard V × Reply
  unfolding post_key list_agent_keys ◌=ₜ◌
  handle_keys d c =
      if c.method =ₜ codes "GET"
      then (d, reply 200 (keys_found (list_agent_keys newest_first d.keys false)))
      else if c.method =ₜ codes "POST"
      then elim (decode c.body) [
        | none ↦ (d, reply 400 (failure (codes "id and public_key are required")))
        | some k ↦ post_key d k
      ]
      else (d, not_allowed)

unfoldable pub handle_key_by_id : {V : Type 0} → Dashboard V → Call → Dashboard V × Reply
unfolding delete_agent_key has_prefix is_empty ◌=ₜ◌
handle_key_by_id d c =
    let id = trim_prefix c.path (codes "/api/keys/") in
    if is_empty id
    then (d, reply 400 (failure (codes "key ID required")))
    else if not (c.method =ₜ codes "DELETE")
    then (d, not_allowed)
    else elim (delete_agent_key d.keys id) [
      | err e ↦ (d, reply 404 (missing id))
      | ok rows ↦ (record d { keys = rows }, reply 200 (confirmed (codes "key deleted")))
    ]
