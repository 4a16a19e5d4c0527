-- ===== src/Registry/Reload.antt =====
-- The chain of the process, cmd/shield-agent/proxy.go: how it is built at the start, and what a SIGHUP
-- makes of it. A reload reads a new configuration and key store (`none` where one of them fails) and
-- swaps the chain, or keeps the old one.
use mathlib.Core.Path.{subst}
use shield_agent.Prelude.{
  ◌≡◌, refl, ap, ◌∙◌, ◌⊎◌, inl, inr, Bool, true, false, Option, none, some, List, [], ◌∷◌, ◌++◌,
  arith, any,
}
use shield_agent.Prelude.Result.{Result, ok, err, Result-cases}
use shield_agent.Config.{MiddlewareEntry}
use shield_agent.Config.Load.{key_prefix, apply_db_overrides}
use shield_agent.Registry.{
  Values, Dependencies, BuiltMiddleware, built_auth, built_log, built_token, built_guard,
  BuildError, create_middleware, build_chain,
}
use shield_agent.Registry.Built.{Makes, done, off, on, Outcome, build_chain-Outcome}
use shield_agent.Storage.{ConfigTable, load_config_prefix}

-- The chain that serves, and the chains whose closer ran
pub record Swappable : Type 0 where
  pub current : List BuiltMiddleware
  pub closed : List (List BuiltMiddleware)

-- The process has a token store, and a reputation provider where the configuration enables one.
abbrev pub start_dependencies : Bool → Dependencies
start_dependencies reputation = record { has_token_store = true; has_reputation = reputation }

-- `newDeps` of the handler of SIGHUP sets neither.
abbrev pub reload_dependencies : Dependencies
reload_dependencies = record { has_token_store = false; has_reputation = false }

module _ {V : Type 0} (vs : Values V) where
  unfoldable pub start_chain :
      Bool → List (MiddlewareEntry V) → ConfigTable → Result BuildError (List BuiltMiddleware)
  unfolding build_chain apply_db_overrides load_config_prefix
  start_chain reputation es admin =
      build_chain vs (start_dependencies reputation)
        (apply_db_overrides es (load_config_prefix key_prefix admin))

  unfoldable pub reload : Swappable → Option (List (MiddlewareEntry V)) → Swappable
  unfolding build_chain
  reload s none = s
  reload s (some es) = elim (build_chain vs reload_dependencies es) [
    | err e ↦ s
    | ok chain ↦ record { current = chain; closed = s.closed ++ s.current ∷ [] }
  ]

  unfoldable pub reload_all : Swappable → List (Option (List (MiddlewareEntry V))) → Swappable
  unfolding reload
  reload_all s [] = s
  reload_all s (r ∷ rs) = reload_all (reload s r) rs

-- A middleware that checks tokens, or one that asks for reputations
abbrev pub needs_start : BuiltMiddleware → Bool
needs_start built_token = true
needs_start (built_guard cfg reputation) = reputation
needs_start _ = false

module _ {V : Type 0} (vs : Values V) where
  create_middleware-reload :
      (e : MiddlewareEntry V) (item : BuiltMiddleware)
      → create_middleware vs reload_dependencies e ≡ ok item
      → needs_start item ≡ false
  unfolding create_middleware
  create_middleware-reload e built_auth h = refl
  create_middleware-reload e built_log h = refl
  create_middleware-reload e (built_guard cfg reputation) h = ground arith
  create_middleware-reload e built_token h = absurd (ground arith)

  Makes-reload :
      (es : List (MiddlewareEntry V)) (items : List BuiltMiddleware)
      → Makes vs reload_dependencies es items
      → any needs_start items ≡ false
  Makes-reload [] [] done = refl
  Makes-reload [] (item ∷ items) m = elim m [ ]
  Makes-reload (e ∷ es) items (off skipped m) = Makes-reload es items m
  Makes-reload (e ∷ es) (item ∷ items) (on enabled made m) =
      ground (arith, create_middleware-reload e item made, Makes-reload es items m)

  current-reload :
      (s : Swappable) (es : List (MiddlewareEntry V)) (chain : List BuiltMiddleware)
      → build_chain vs reload_dependencies es ≡ ok chain
      → (reload vs s (some es)).current ≡ chain
  unfolding reload
  current-reload s es chain h = ground arith

  reload-any :
      (s : Swappable) (r : Option (List (MiddlewareEntry V)))
      → ((reload vs s r).current ≡ s.current) ⊎ (any needs_start (reload vs s r).current ≡ false)
  unfolding reload
  reload-any s none = inl refl
  reload-any s (some es) = elim (Result-cases (build_chain vs reload_dependencies es)) [
    | inr (e, h) ↦ inl (ground arith)
    | inl (chain, h) ↦
        let (made, same, makes) : Outcome vs reload_dependencies [] es (ok chain) =
          subst (Outcome vs reload_dependencies [] es) h
            (build_chain-Outcome vs reload_dependencies es) in
        inr (ap (any needs_start) (current-reload s es chain h ∙ same) ∙ Makes-reload es made makes)
  ]

  -- After any number of reloads the chain is the one that was there, or one in which no middleware
  -- checks tokens and none asks for reputations, whatever the configurations say.
  pub reload_all-needs_start :
      (s : Swappable) (rs : List (Option (List (MiddlewareEntry V))))
      → ((reload_all vs s rs).current ≡ s.current)
        ⊎ (any needs_start (reload_all vs s rs).current ≡ false)
  unfolding reload_all
  reload_all-needs_start s [] = inl refl
  reload_all-needs_start s (r ∷ rs) = elim (reload_all-needs_start (reload vs s r) rs) [
    | inr without ↦ inr without
    | inl kept ↦ elim (reload-any s r) [
      | inl old ↦ inl (kept ∙ old)
      | inr without ↦ inr (ap (any needs_start) kept ∙ without)
    ]
  ]
