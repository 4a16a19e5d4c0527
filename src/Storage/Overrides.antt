-- ===== src/Storage/Overrides.antt =====
-- The overrides of middlewares that the database holds, as `ApplyDBOverrides` of
-- internal/config/config.go gets them from `LoadConfigPrefix`.
use shield_agent.Prelude.{
  ◌≡◌, refl, inl, inr, Bool, true, false, List, [], ◌∷◌, ◌++◌, Text, codes, ◌=ₜ◌, has_prefix, arith,
  All, if◌then◌else◌, Bool-cases, ◌≢◌,
}
use shield_agent.Config.{MiddlewareEntry}
use shield_agent.Config.Load.{key_prefix, set_enabled, apply_db_overrides}
use shield_agent.Proxy.Router.{trim_prefix}
use shield_agent.Storage.{ConfigTable, like, of_tail, load_config_prefix}

abbrev next_entries :
    {V : Type 0} → List (MiddlewareEntry V) → Text → Text → List (MiddlewareEntry V)
next_entries es k v =
    if has_prefix k key_prefix
    then set_enabled (trim_prefix k key_prefix) (v =ₜ codes "true") es
    else es

not_both : {b : Bool} → b ≡ true → b ≡ false → ⊥
not_both h k = ground arith

some_tail : (s : Text) → of_tail (like []) s ≡ true
unfolding like
some_tail [] = refl
some_tail (c ∷ s) = some_tail s

like_any : (s : Text) → like (b'%' ∷ []) s ≡ true
unfolding like
like_any [] = refl
like_any (c ∷ s) = some_tail s

-- A pattern without `%`, and then one: every text with that prefix matches.
like-prefix :
    (p s : Text) → All (λ c. c ≢ b'%') p → has_prefix s p ≡ true → like (p ++ b'%' ∷ []) s ≡ true
unfolding like has_prefix
like-prefix [] s n h = like_any s
like-prefix (b ∷ p) [] n h = absurd (ground arith)
like-prefix (b ∷ p) (c ∷ s) n h = ground (arith, n.0, like-prefix p s n.1)

-- Only what has the prefix counts, so it does not matter that LIKE finds more keys than that.
pub apply_db_overrides-load_config_prefix :
    {V : Type 0} (es : List (MiddlewareEntry V)) (rows : ConfigTable)
    → apply_db_overrides es (load_config_prefix key_prefix rows) ≡ apply_db_overrides es rows
unfolding apply_db_overrides load_config_prefix
apply_db_overrides-load_config_prefix es [] = refl
apply_db_overrides-load_config_prefix es ((k, v) ∷ rows) =
    elim (Bool-cases (like (key_prefix ++ b'%' ∷ []) k)) [
      | inl found ↦ rw found (apply_db_overrides-load_config_prefix (next_entries es k v) rows)
      | inr missed ↦ elim (Bool-cases (has_prefix k key_prefix)) [
        | inl ours ↦ absurd (not_both (like-prefix key_prefix k (omega arith) ours) missed)
        | inr other ↦ rw (missed, other) (apply_db_overrides-load_config_prefix es rows)
      ]
    ]
