-- ===== src/Webui/Toggled.antt =====
-- A middleware that is toggled on the dashboard, and the next start: `runProxy` of
-- cmd/shield-agent/proxy.go builds the chain of the entries with what the database holds over them.
use mathlib.Core.Path.{subst}
use shield_agent.Prelude.{
  ◌≡◌, ◌≢◌, refl, ap, sym, ◌∙◌, Bool, true, false, not, Option, none, some, List, [], ◌∷◌, ◌++◌,
  Text, codes, ◌=ₜ◌, =ₜ_iff, arith, if◌then◌else◌, Bool-cases, Option-cases, inl, inr, keep,
  has_prefix,
}
use shield_agent.Prelude.Result.{ok}
use shield_agent.Config.{MiddlewareEntry}
use shield_agent.Config.Load.{key_prefix, set_enabled, apply_db_overrides}
use shield_agent.Config.Load.Overrides.{
  is_on, first_status, said, or_status, override_of, or_status_assoc,
  first_status-apply_db_overrides, first_status-set_enabled,
}
use shield_agent.Registry.{Values, BuiltMiddleware, create_middleware, is_enabled}
use shield_agent.Registry.Built.{Makes, done, off, on, Outcome, build_chain-Outcome}
use shield_agent.Registry.Reload.{start_dependencies, start_chain}
use shield_agent.Storage.{ConfigTable, save_config, load_config_prefix}
use shield_agent.Storage.Overrides.{apply_db_overrides-load_config_prefix}
use shield_agent.Webui.{Dashboard, bool_text, is_now_on, on_by_default, toggle}

or_status-none : (o : Option Bool) → or_status o none ≡ o
or_status-none (some b) = refl
or_status-none none = refl

override_of_append :
    (name : Text) (xs ys : ConfigTable)
    → override_of name (xs ++ ys) ≡ or_status (override_of name ys) (override_of name xs)
override_of_append name [] ys = sym (or_status-none (override_of name ys))
override_of_append name ((k, v) ∷ xs) ys =
    ap (λ o. or_status o (said name k v)) (override_of_append name xs ys)
    ∙ sym (or_status_assoc (override_of name ys) (override_of name xs) (said name k v))

said-own : (name v : Text) → said name (key_prefix ++ name) v ≡ some (v =ₜ codes "true")
unfolding has_prefix ◌=ₜ◌
said-own name v = ground (arith, =ₜ_iff name name)

=ₜ_true : (b : Bool) → (bool_text b =ₜ codes "true") ≡ b
unfolding ◌=ₜ◌
=ₜ_true true = refl
=ₜ_true false = refl

override_of-save_config :
    (name : Text) (b : Bool) (rows : ConfigTable)
    → override_of name (save_config (key_prefix ++ name) (bool_text b) rows) ≡ some b
unfolding save_config
override_of-save_config name b rows =
    let key = key_prefix ++ name in
    let others = keep (λ (row : Text × Text). not (row.0 =ₜ key)) rows in
    override_of_append name others ((key, bool_text b) ∷ [])
    ∙ ap (λ o. or_status o (override_of name others))
        (said-own name (bool_text b) ∙ ap some (=ₜ_true b))

is_on_lem : (o : Option Bool) → on_by_default o ≡ is_on o
is_on_lem none = refl
is_on_lem (some b) = refl

if_own : (name : Text) (b : Bool) (o : Option Bool) → (if name =ₜ name then some b else o) ≡ some b
if_own name b o = ground (arith, =ₜ_iff name name)

-- What the loop of the handler finds is the first_status, on where there is none.
pub is_now_on-first_status :
    {V : Type 0} (name : Text) (es : List (MiddlewareEntry V))
    → is_now_on name es ≡ is_on (first_status name es)
unfolding is_now_on
is_now_on-first_status name [] = refl
is_now_on-first_status name (e ∷ es) =
    ground (arith, is_on_lem e.enabled, is_now_on-first_status name es)

pub is_enabled_lem : {V : Type 0} (e : MiddlewareEntry V) → is_enabled e ≡ is_on e.enabled
is_enabled_lem e = elim (Option-cases e.enabled) [ inl unset ↦ cc | inr (b, set) ↦ cc ]

module _ {V : Type 0} where
  -- The handler with the callback of the process, on a name twice
  abbrev pub toggle_twice : Text → Dashboard V → Dashboard V
  toggle_twice name d = (toggle set_enabled name (toggle set_enabled name d).0).0

  pub override_of-toggle :
      (name : Text) (d : Dashboard V)
      → override_of name (toggle set_enabled name d).0.admin
        ≡ some (not (is_now_on name d.middlewares))
  unfolding toggle
  override_of-toggle name d =
      override_of-save_config name (not (is_now_on name d.middlewares)) d.admin

  is_now_on-toggle :
      (name : Text) (d : Dashboard V)
      → is_now_on name (toggle set_enabled name d).0.middlewares
        ≡ not (is_now_on name d.middlewares)
  unfolding toggle
  is_now_on-toggle name d =
      let now_on = not (is_now_on name d.middlewares) in
      is_now_on-first_status name (set_enabled name now_on d.middlewares)
      ∙ ap is_on (
          first_status-set_enabled name name now_on d.middlewares
          ∙ if_own name now_on (first_status name d.middlewares))

  -- The status of the first entry at the next start, whatever the entries of the configuration
  pub status-start :
      (name : Text) (b : Bool) (es : List (MiddlewareEntry V)) (admin : ConfigTable)
      → override_of name admin ≡ some b
      → first_status name (apply_db_overrides es (load_config_prefix key_prefix admin)) ≡ some b
  status-start name b es admin h =
      ap (first_status name) (apply_db_overrides-load_config_prefix es admin)
      ∙ first_status-apply_db_overrides name es admin
      ∙ ap (λ o. or_status o (first_status name es)) h

module _ {V : Type 0} (vs : Values V) (reputation : Bool) where
  -- No middleware can be created under that name.
  abbrev pub Unknown : Text → Type 0
  Unknown name =
      (e : MiddlewareEntry V) (item : BuiltMiddleware)
      → e.name ≡ name
      → create_middleware vs (start_dependencies reputation) e ≢ ok item

  Makes-known :
      (name : Text) (es : List (MiddlewareEntry V)) (items : List BuiltMiddleware)
      → Unknown name
      → Makes vs (start_dependencies reputation) es items
      → first_status name es ≢ some true
  Makes-known name es items u done h = absurd (ground arith)
  Makes-known name (e ∷ es) items u (off skipped m) h = elim (Bool-cases (e.name =ₜ name)) [
    | inl same ↦ absurd (ground (arith, is_enabled_lem e))
    | inr other ↦ Makes-known name es items u m (ground arith)
  ]
  Makes-known name (e ∷ es) (item ∷ items) u (on enabled made m) h =
      elim (Bool-cases (e.name =ₜ name)) [
        | inl same ↦ u e item ((=ₜ_iff e.name name).0 same) made
        | inr other ↦ Makes-known name es items u m (ground arith)
      ]

  -- A name that no entry has and no middleware goes by, toggled twice on the dashboard: the table of the
  -- database then turns it on, and no chain can be built at the next start, whatever the entries of the
  -- configuration.
  pub start_chain-toggle_twice :
      (name : Text) (d : Dashboard V)
      → Unknown name
      → first_status name d.middlewares ≡ none
      → (es : List (MiddlewareEntry V)) (items : List BuiltMiddleware)
      → start_chain vs reputation es (toggle_twice name d).admin ≢ ok items
  unfolding start_chain
  start_chain-toggle_twice name d u absent es items h =
      let first : Dashboard V = (toggle set_enabled name d).0 in
      let was_on : is_now_on name d.middlewares ≡ true =
        is_now_on-first_status name d.middlewares ∙ ap is_on absent in
      let turned_off : is_now_on name first.middlewares ≡ false =
        is_now_on-toggle name d ∙ ap not was_on in
      let turned_on : override_of name (toggle_twice name d).admin ≡ some true =
        override_of-toggle name first ∙ ap (λ b. some (not b)) turned_off in
      let entries : List (MiddlewareEntry V) =
        apply_db_overrides es (load_config_prefix key_prefix (toggle_twice name d).admin) in
      let (made, splits, makes) : Outcome vs (start_dependencies reputation) [] entries (ok items) =
        subst (Outcome vs (start_dependencies reputation) [] entries) h
          (build_chain-Outcome vs (start_dependencies reputation) entries) in
      Makes-known name entries made u makes
        (status-start name true es (toggle_twice name d).admin turned_on)
