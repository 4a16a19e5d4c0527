-- ===== src/Auth/KeyTable/Revoked.antt =====
-- A key that is deleted stays deleted.
use mathlib.Core.Path.{Path, subst}
use shield_agent.Prelude.{
  ◌≡◌, ◌∙◌, sym, ap, refl, inl, inr, Bool, true, false, Option, none, some, List, [], ◌∷◌, ◌++◌,
  Text, ◌=ₜ◌, =ₜ_iff, any, map, arith, Bool-cases,
}
use shield_agent.Prelude.Result.{Result, ok, err}
use shield_agent.Auth.KeyStore.{not_found}
use shield_agent.Auth.Stores.{db_public_key}
use shield_agent.Auth.KeyTable.{
  AgentKey, has_id, is_live, find, deactivate, insert_agent_key, get_agent_key, delete_agent_key,
  KeyTableError,
}

-- A change of the table by its users, with the arguments of the source
pub data Change : Type 0 where
  registers : Text → Text → Text → Text → Change
  deletes : Text → Change

abbrev pub after_error : List AgentKey → Result KeyTableError (List AgentKey) → List AgentKey
after_error rows (ok rows') = rows'
after_error rows (err _) = rows

-- An error leaves the table as it is.
unfoldable pub change : List AgentKey → Change → List AgentKey
unfolding insert_agent_key delete_agent_key
change rows (registers id key label at) = after_error rows (insert_agent_key rows id key label at)
change rows (deletes id) = after_error rows (delete_agent_key rows id)

unfoldable pub change_all : List AgentKey → List Change → List AgentKey
unfolding change
change_all rows [] = rows
change_all rows (c ∷ changes) = change_all (change rows c) changes

-- The id has a row, and no live one.
record IsRetired (id : Text) (rows : List AgentKey) : Type 0 where
  known : any (has_id id) rows ≡ true
  dead : find (is_live id) rows ≡ none

unequal : Path Bool true false → ⊥
unequal e = cc

any-deactivate :
    (id i : Text) (rows : List AgentKey)
    → any (has_id id) (map (deactivate i) rows) ≡ any (has_id id) rows
any-deactivate id i [] = refl
any-deactivate id i (k ∷ rows) = ground (arith, any-deactivate id i rows)

find-deactivate :
    (id i : Text) (rows : List AgentKey)
    → find (is_live id) rows ≡ none
    → find (is_live id) (map (deactivate i) rows) ≡ none
find-deactivate id i [] h = refl
find-deactivate id i (k ∷ rows) h = elim (Bool-cases (is_live id k)) [
  | inl live ↦ absurd (ground arith)
  | inr other ↦ ground (arith, find-deactivate id i rows (ground arith))
]

find-deactivate_self :
    (id : Text) (rows : List AgentKey) → find (is_live id) (map (deactivate id) rows) ≡ none
find-deactivate_self id [] = refl
find-deactivate_self id (k ∷ rows) = ground (arith, find-deactivate_self id rows)

any-append :
    (id : Text) (rows : List AgentKey) (k : AgentKey)
    → any (has_id id) rows ≡ true
    → any (has_id id) (rows ++ k ∷ []) ≡ true
any-append id [] k h = absurd (ground arith)
any-append id (r ∷ rows) k h = elim (Bool-cases (has_id id r)) [
  | inl here ↦ ground arith
  | inr later ↦ ground (arith, any-append id rows k (ground arith))
]

find-append :
    (id : Text) (rows : List AgentKey) (k : AgentKey)
    → (k.id =ₜ id) ≡ false
    → find (is_live id) rows ≡ none
    → find (is_live id) (rows ++ k ∷ []) ≡ none
find-append id [] k other h = ground arith
find-append id (r ∷ rows) k other h = elim (Bool-cases (is_live id r)) [
  | inl live ↦ absurd (ground arith)
  | inr dead ↦ ground (arith, find-append id rows k other (ground arith))
]

change-IsRetired :
    (id : Text) (rows : List AgentKey) (c : Change)
    → IsRetired id rows
    → IsRetired id (change rows c)
unfolding change insert_agent_key delete_agent_key
change-IsRetired id rows (deletes i) r = elim (Bool-cases (any (has_id i) rows)) [
  | inr absent ↦ rw absent r
  | inl present ↦ rw present (record {
    known = any-deactivate id i rows ∙ r.known;
    dead = find-deactivate id i rows r.dead;
  })
]
change-IsRetired id rows (registers i key label at) r = elim (Bool-cases (any (has_id i) rows)) [
  | inl present ↦ rw present r
  | inr absent ↦
      let k : AgentKey = record {
        id = i;
        public_key = key;
        label = label;
        created_at = at;
        active = true;
      } in
      rw absent (record {
        known = any-append id rows k r.known;
        dead = find-append id rows k (differs r.known absent) r.dead;
      })
]
  where
    differs : any (has_id id) rows ≡ true → any (has_id i) rows ≡ false → (i =ₜ id) ≡ false
    differs h a = elim (Bool-cases (i =ₜ id)) [
      | inr other ↦ other
      | inl same ↦ absurd (
          unequal (sym h ∙ ap (λ (x : Text). any (has_id x) rows) (sym ((=ₜ_iff i id).0 same)) ∙ a))
    ]

change_all-IsRetired :
    (id : Text) (rows : List AgentKey) (changes : List Change)
    → IsRetired id rows
    → IsRetired id (change_all rows changes)
unfolding change_all
change_all-IsRetired id rows [] r = r
change_all-IsRetired id rows (c ∷ changes) r =
    change_all-IsRetired id (change rows c) changes (change-IsRetired id rows c r)

delete_agent_key-IsRetired :
    (id : Text) (rows rows' : List AgentKey)
    → delete_agent_key rows id ≡ ok rows'
    → IsRetired id rows'
unfolding delete_agent_key
delete_agent_key-IsRetired id rows rows' deleted = elim (Bool-cases (any (has_id id) rows)) [
  | inr absent ↦ absurd (ground arith)
  | inl present ↦
      subst (IsRetired id) (ground arith) (record {
        known = any-deactivate id id rows ∙ present;
        dead = find-deactivate_self id rows;
      })
]

-- The key that the table has for an agent, as the database store asks for it
abbrev pub key_in : List AgentKey → Text → Option Text
key_in rows id = elim (get_agent_key rows id) [ none ↦ none | some k ↦ some k.public_key ]

-- Once the key of an agent is deleted, the database store finds no key for it, whatever is registered
-- and deleted afterwards.
pub db_public_key_deleted :
    (rows rows' : List AgentKey) (id : Text) (decode : Text → Option Text) (changes : List Change)
    → delete_agent_key rows id ≡ ok rows'
    → db_public_key (key_in (change_all rows' changes)) decode id ≡ err not_found
unfolding db_public_key get_agent_key delete_agent_key
db_public_key_deleted rows rows' id decode changes deleted =
    let r =
      change_all-IsRetired id rows' changes (delete_agent_key-IsRetired id rows rows' deleted) in
    let dead : find (is_live id) (change_all rows' changes) ≡ none = r.dead in ground arith
