-- ===== src/Auth/KeyTable.antt =====
-- The table of agent keys of internal/storage/db.go, as its rows in the order of insertion; `id` is
-- its primary key. Failures of the database are not in this model, and `created_at` is what the
-- database fills in.
pub mod Revoked
use shield_agent.Prelude.{
  Bool, true, false, not, Option, none, some, List, [], ◌∷◌, ◌++◌, ◌&&◌, Text, ◌=ₜ◌, any, keep, map,
  if◌then◌else◌,
}
use shield_agent.Prelude.Result.{Result, ok, err}

pub record AgentKey : Type 0 where
  pub id : Text
  pub public_key : Text
  pub label : Text
  pub created_at : Text
  pub active : Bool

pub data KeyTableError : Type 0 where
  duplicate_id missing_id : KeyTableError

abbrev pub has_id : Text → AgentKey → Bool
has_id id k = k.id =ₜ id

abbrev pub is_live : Text → AgentKey → Bool
is_live id k = k.id =ₜ id && k.active

unfoldable pub insert_agent_key :
    List AgentKey → Text → Text → Text → Text → Result KeyTableError (List AgentKey)
insert_agent_key rows id key label created_at =
    if any (has_id id) rows
    then err duplicate_id
    else ok (
        rows
        ++ record {
          id = id;
          public_key = key;
          label = label;
          created_at = created_at;
          active = true;
        }
          ∷ [])

-- `sort` is the order `created_at DESC`.
unfoldable pub list_agent_keys :
    (List AgentKey → List AgentKey) → List AgentKey → Bool → List AgentKey
list_agent_keys sort rows include_inactive =
    sort (if include_inactive then rows else keep (λ k. k.active) rows)

abbrev pub find : (AgentKey → Bool) → List AgentKey → Option AgentKey
find p [] = none
find p (k ∷ rows) = let rest = find p rows in if p k then some k else rest

unfoldable pub get_agent_key : List AgentKey → Text → Option AgentKey
get_agent_key rows id = find (is_live id) rows

abbrev pub deactivate : Text → AgentKey → AgentKey
deactivate id k = if k.id =ₜ id then record k { active = false } else k

unfoldable pub delete_agent_key : List AgentKey → Text → Result KeyTableError (List AgentKey)
delete_agent_key rows id =
    if any (has_id id) rows then ok (map (deactivate id) rows) else err missing_id
