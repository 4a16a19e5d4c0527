-- ===== src/Registry.antt =====
-- internal/middleware/registry.go. What is built is named with its settings; only the log middleware
-- has a closer. `Values` is what type assertions find in a value of a configuration, `trunc` the
-- conversion of a float to an int.
pub mod Built
pub mod Reload
use shield_agent.Prelude.{
  Bool, true, false, Option, none, some, List, [], ◌∷◌, ◌++◌, Text, codes, ◌=ₜ◌, keep,
  if◌then◌else◌,
}
use shield_agent.Prelude.Int.{ℤ, pos}
use shield_agent.Prelude.Map.{Map}
use shield_agent.Prelude.Result.{Result, ok, err}
use shield_agent.Config.{MiddlewareEntry}
use shield_agent.Guard.Config.{GuardConfig}

pub record Values (V : Type 0) : Type 0 where
  pub as_int : V → Option ℤ
  pub as_int64 : V → Option ℤ
  pub as_float : V → Option ℤ
  pub as_bool : V → Option Bool
  pub as_text : V → Option Text
  pub as_list : V → Option (List V)

-- What is read of `Dependencies`: whether there are a token store and a reputation provider.
pub record Dependencies : Type 0 where
  pub has_token_store : Bool
  pub has_reputation : Bool

pub data BuiltMiddleware : Type 0 where
  built_auth built_log built_token : BuiltMiddleware
  built_guard : GuardConfig → Bool → BuiltMiddleware

pub data CreateError : Type 0 where
  no_token_store : CreateError
  unknown_middleware : Text → CreateError

module _ {V : Type 0} (vs : Values V) where
  -- The first assertion that holds, else the zero of a `GuardConfig`
  abbrev pub int_of : Option V → ℤ
  int_of none = pos 0
  int_of (some v) = elim (vs.as_int v) [
    | some n ↦ n
    | none ↦ elim (vs.as_float v) [ some n ↦ n | none ↦ pos 0 ]
  ]

  abbrev pub int64_of : Option V → ℤ
  int64_of none = pos 0
  int64_of (some v) = elim (vs.as_int v) [
    | some n ↦ n
    | none ↦ elim (vs.as_float v) [
      | some n ↦ n
      | none ↦ elim (vs.as_int64 v) [ some n ↦ n | none ↦ pos 0 ]
    ]
  ]

  abbrev pub texts_in : List V → List Text
  texts_in [] = []
  texts_in (v ∷ items) =
      let rest = texts_in items in elim (vs.as_text v) [ some t ↦ t ∷ rest | none ↦ rest ]

  abbrev pub texts_of : Option V → List Text
  texts_of none = []
  texts_of (some v) = elim (vs.as_list v) [ some items ↦ texts_in items | none ↦ [] ]

  abbrev pub bool_of : Option V → Bool
  bool_of none = false
  bool_of (some v) = elim (vs.as_bool v) [ some b ↦ b | none ↦ false ]

  unfoldable pub guard_config : Map V → GuardConfig
  guard_config options = record {
    rate_limit_per_min = int_of (options (codes "rate_limit_per_min"));
    max_body_size = int64_of (options (codes "max_body_size"));
    ip_blocklist = texts_of (options (codes "ip_blocklist"));
    ip_allowlist = texts_of (options (codes "ip_allowlist"));
    brute_force_max_fails = int_of (options (codes "brute_force_max_fails"));
    brute_force_window = 0;
    brute_force_block_dur = 0;
    validate_jsonrpc = bool_of (options (codes "validate_jsonrpc"));
  }

  unfoldable pub create_middleware :
      Dependencies → MiddlewareEntry V → Result CreateError BuiltMiddleware
  unfolding guard_config ◌=ₜ◌
  create_middleware deps e =
      if e.name =ₜ codes "auth"
      then ok built_auth
      else if e.name =ₜ codes "guard"
      then ok (built_guard (guard_config e.options) deps.has_reputation)
      else if e.name =ₜ codes "log"
      then ok built_log
      else if e.name =ₜ codes "token"
      then (if deps.has_token_store then ok built_token else err no_token_store)
      else err (unknown_middleware e.name)

abbrev pub has_closer : BuiltMiddleware → Bool
has_closer built_log = true
has_closer _ = false

-- `entry.Enabled == nil || *entry.Enabled`
abbrev pub is_enabled : {V : Type 0} → MiddlewareEntry V → Bool
is_enabled e = elim e.enabled [ none ↦ true | some on ↦ on ]

-- The error for an entry, and the middlewares whose closers ran
pub record BuildError : Type 0 where
  pub name : Text
  pub error : CreateError
  pub closed : List BuiltMiddleware

module _ {V : Type 0} (vs : Values V) (deps : Dependencies) where
  -- From the items that were made on
  unfoldable pub build_from :
      List BuiltMiddleware → List (MiddlewareEntry V) → Result BuildError (List BuiltMiddleware)
  unfolding create_middleware
  build_from items [] = ok items
  build_from items (e ∷ es) = elim (is_enabled e) [
    | false ↦ build_from items es
    | true ↦ elim (create_middleware vs deps e) [
      | err error ↦ err (record { name = e.name; error = error; closed = keep has_closer items })
      | ok item ↦ build_from (items ++ item ∷ []) es
    ]
  ]

  -- `BuildChain`; where it succeeds, its second result closes the items that have a closer.
  unfoldable pub build_chain : List (MiddlewareEntry V) → Result BuildError (List BuiltMiddleware)
  unfolding build_from
  build_chain entries = build_from [] entries
