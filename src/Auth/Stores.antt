-- ===== src/Auth/Stores.antt =====
-- internal/auth/composite_store.go and internal/auth/db_store.go. A store is what it answers at this
-- request; `get_agent_key` is the key that the database has for an agent, `none` also where the query
-- fails, and `decode` is `base64.StdEncoding.DecodeString`.
use shield_agent.Prelude.{
  true, false, ◌==◌, ◌≡◌, refl, ap, ◌∙◌, inl, inr, ◌↔◌, Option, none, some, List, [], ◌∷◌, ◌++◌,
  Text, All, length, arith,
}
use shield_agent.Prelude.Result.{Result, ok, err, Result-cases}
use shield_agent.Auth.KeyStore.{
  KeyError, not_found, invalid_base64, invalid_length, public_key_size,
}

abbrev pub Store : Type 0
Store = Text → Result KeyError Text

-- Without a store the key is nil, and so is the error.
abbrev pub last_error : Option KeyError → Result KeyError Text
last_error none = ok []
last_error (some e) = err e

unfoldable pub try_stores : Option KeyError → List Store → Store
try_stores last [] agent_id = last_error last
try_stores last (store ∷ stores) agent_id = elim (store agent_id) [
  | ok key ↦ ok key
  | err e ↦ try_stores (some e) stores agent_id
]

-- `(*CompositeKeyStore).PublicKey`
unfoldable pub composite_public_key : List Store → Store
unfolding try_stores
composite_public_key stores agent_id = try_stores none stores agent_id

-- `(*DBKeyStore).PublicKey`
unfoldable pub db_public_key : (Text → Option Text) → (Text → Option Text) → Store
db_public_key get_agent_key decode agent_id = elim (get_agent_key agent_id) [
  | none ↦ err not_found
  | some text ↦ elim (decode text) [
    | none ↦ err (invalid_base64 agent_id)
    | some raw ↦ elim (length raw == public_key_size) [
      | false ↦ err (invalid_length (length raw))
      | true ↦ ok raw
    ]
  ]
]

-- The key is that of a store, and no store before it has one.
pub record IsFirst (stores : List Store) (agent_id key : Text) : Type 0 where
  pub before : List Store
  pub store : Store
  pub behind : List Store
  pub splits : stores ≡ before ++ store ∷ behind
  pub unknown : All (λ (s : Store). (e : KeyError) × (s agent_id ≡ err e)) before
  pub finds : store agent_id ≡ ok key

module _ (agent_id key : Text) where
  try_stores-IsFirst :
      (e : KeyError) (stores : List Store)
      → try_stores (some e) stores agent_id ≡ ok key
      → IsFirst stores agent_id key
  unfolding try_stores
  try_stores-IsFirst e [] h = cc
  try_stores-IsFirst e (store ∷ stores) h = elim (Result-cases (store agent_id)) [
    | inl (k, found) ↦ record {
      before = [];
      store = store;
      behind = stores;
      splits = refl;
      unknown = tt;
      finds = ground arith;
    }
    | inr (e', missing) ↦
        let later = try_stores-IsFirst e' stores (ground arith) in
        record {
          before = store ∷ later.before;
          store = later.store;
          behind = later.behind;
          splits = ap (λ (ss : List Store). store ∷ ss) later.splits;
          unknown = ((e', missing), later.unknown);
          finds = later.finds;
        }
  ]

  try_before :
      (last : Option KeyError) (before behind : List Store) (store : Store)
      → All (λ (s : Store). (e : KeyError) × (s agent_id ≡ err e)) before
      → store agent_id ≡ ok key
      → try_stores last (before ++ store ∷ behind) agent_id ≡ ok key
  unfolding try_stores
  try_before last [] behind store u f = ground arith
  try_before last (b ∷ before) behind store ((e, missing), u) f =
      ground (arith, try_before (some e) before behind store u f)

  IsFirst-try_stores :
      (stores : List Store) → IsFirst stores agent_id key → try_stores none stores agent_id ≡ ok key
  IsFirst-try_stores stores f =
      ap (λ (ss : List Store). try_stores none ss agent_id) f.splits
      ∙ try_before none f.before f.behind f.store f.unknown f.finds

  -- Of one store or more, a key is found exactly if some store has it and no store before that one
  -- has any.
  pub composite_public_key_iff :
      (store : Store) (stores : List Store)
      → (composite_public_key (store ∷ stores) agent_id ≡ ok key)
        ↔ IsFirst (store ∷ stores) agent_id key
  unfolding composite_public_key try_stores
  composite_public_key_iff store stores = (
    λ h. try_stores-IsFirst not_found (store ∷ stores) h,
    λ f. IsFirst-try_stores (store ∷ stores) f,
  )
