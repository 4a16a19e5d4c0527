-- ===== src/Config/Examples.antt =====
-- Configurations, the chain that is built of one, and their theorems at concrete inputs.
use shield_agent.Prelude.{
  ℕ, ◌≡◌, refl, ◌↔◌, true, false, none, some, List, [], ◌∷◌, Text, codes, ◌=ₜ◌, if◌then◌else◌, ltb,
  leb, false, Option, any, ◌⊎◌,
}
use shield_agent.Prelude.Int.{pos}
use shield_agent.Reputation.{Floats}
use shield_agent.Config.{Config, MiddlewareEntry, defaults, entry_on}
use shield_agent.Config.Validate.{validate}
use shield_agent.Config.Validate.Valid.{IsValid, validate_iff}
use shield_agent.Config.Load.{Parsers, no_path, load}
use shield_agent.Config.Load.Priority.{Decided, load-Priority}
use shield_agent.Registry.{Values, Dependencies, built_log, built_token, build_chain}
use shield_agent.Registry.Reload.{Swappable, reload_all, needs_start, reload_all-needs_start}
use shield_agent.Registry.Built.{Outcome, build_chain-Outcome}

-- Floats by their integral parts
abbrev floats : Floats
floats = record {
  Float = ℕ;
  of_nat = λ n. n;
  zero_f = 0;
  one_f = 1;
  half = 0;
  add = λ a b. a;
  sub = λ a b. a;
  mul = λ a b. a;
  div = λ a b. a;
  less = ltb;
  at_least = λ a b. leb b a;
}

abbrev as_is : Text → Text
as_is t = t

validate_iff_example :
    (validate as_is floats (defaults floats {V = ℕ}) ≡ none)
    ↔ IsValid as_is floats (defaults floats {V = ℕ})
validate_iff_example = validate_iff as_is floats (defaults floats)

abbrev parsers : Parsers ℕ
parsers = record { bool_of = λ t. some true; int_of = λ t. some (pos 1); float_of = λ t. some 1 }

-- Only the mode is set.
abbrev env : Text → Text
env name = if name =ₜ codes "SHIELD_AGENT_SECURITY_MODE" then codes "closed" else []

abbrev flags : List (Text × Text)
flags = (codes "monitor-addr", codes "localhost:1") ∷ []

abbrev start : Config floats ℕ
start = defaults floats

abbrev loaded : Config floats ℕ
loaded = record start {
  server = record start.server { monitor_addr = codes "localhost:1" };
  security = record start.security { mode = codes "closed" };
}

load-Priority_example :
    Decided floats ℕ parsers env flags start loaded × IsValid as_is floats loaded
unfolding load ◌=ₜ◌
load-Priority_example =
    load-Priority floats ℕ parsers as_is env no_path flags start loaded refl refl

-- A configuration's values are numbers.
abbrev numbers : Values ℕ
numbers = record {
  as_int = λ n. some (pos n);
  as_int64 = λ n. none;
  as_float = λ n. none;
  as_bool = λ n. none;
  as_text = λ n. none;
  as_list = λ n. none;
}

abbrev dependencies : Dependencies
dependencies = record { has_token_store = false; has_reputation = false }

abbrev entries : List (MiddlewareEntry ℕ)
entries = entry_on (codes "log") ∷ entry_on (codes "token") ∷ []

-- The token middleware has no store, and the log middleware is closed.
build_chain-Outcome_example :
    Outcome numbers dependencies [] entries (build_chain numbers dependencies entries)
build_chain-Outcome_example = build_chain-Outcome numbers dependencies entries

-- The chain of a start with every middleware, and a reload of a configuration without the tokens
abbrev running : Swappable
running = record { current = built_log ∷ built_token ∷ []; closed = [] }

abbrev reloads : List (Option (List (MiddlewareEntry ℕ)))
reloads = none ∷ some entries ∷ some (entry_on (codes "log") ∷ []) ∷ []

reload_all-needs_start_example :
    ((reload_all numbers running reloads).current ≡ running.current)
    ⊎ (any needs_start (reload_all numbers running reloads).current ≡ false)
reload_all-needs_start_example = reload_all-needs_start numbers running reloads
