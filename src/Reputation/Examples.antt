-- ===== src/Reputation/Examples.antt =====
-- A provider with one row, its recalculation and restart, and scores of a log.
use mathlib.Core.Path.{subst}
use mathlib.Core.List.{Memᴰ}
use shield_agent.Prelude.{
  ◌↔◌, is_empty, ℕ, ◌+◌, ◌-◌, ◌*◌, ◌/◌, ◌≡◌, refl, sym, true, some, none, List, [], ◌∷◌, Text,
  codes, ◌=ₜ◌, ltb, leb,
}
use shield_agent.Prelude.Map.{Map, empty, insert}
use shield_agent.MessageLog.{ActionLog}
use shield_agent.Reputation.Stats.{Queries, recalculate_all, recalculate_one}
use shield_agent.Reputation.Stats.Window.{AllOld, recalculate_all-agrees}
use shield_agent.Reputation.{
  Floats, Score, ScoreWeights, Thresholds, blocked_level, trusted, new_cache, or_one,
}
use shield_agent.Reputation.Cached.{last_of, multiplier_of}
use shield_agent.Reputation.Provider.{
  Tx, Formats, LocalProvider, save_all, load_all, load_one, new_local_provider, get_rate_multiplier,
  recalculate,
}
use shield_agent.Reputation.Provider.Saved.{OneEach}
use shield_agent.Reputation.Provider.Restarted.{recalculate-restart}

-- Floats in tenths
abbrev tenths : Floats
tenths = record {
  Float = ℕ;
  of_nat = λ n. 10 * n;
  zero_f = 0;
  one_f = 10;
  half = 5;
  add = λ a b. a + b;
  sub = λ a b. a - b;
  mul = λ a b. a * b / 10;
  div = λ a b. 10 * a / b;
  less = ltb;
  at_least = λ a b. leb b a;
}

abbrev score_of : Text → Score tenths
score_of agent = record {
  agent_id_hash = agent;
  trust_level = trusted;
  trust_score = 9;
  success_rate = 10;
  error_rate = 0;
  avg_latency_ms = 0;
  request_count = 3;
  rate_limit_hits = 0;
  auth_failures = 0;
  first_seen = 1;
  last_seen = 2;
  computed_at = 3;
  window_duration = codes "24h";
  source = codes "local";
}

abbrev of_b : Score tenths
of_b = score_of (codes "b")

abbrev reported : Score tenths
reported = record of_b { trust_level = blocked_level; source = codes "remote" }

abbrev provider : LocalProvider tenths
provider = record { cache = new_cache tenths; table = reported ∷ [] }

abbrev scored : List (Score tenths)
scored = score_of (codes "a") ∷ []

abbrev multipliers : Map ℕ
multipliers = insert (codes "blocked") 0 (insert (codes "trusted") 20 empty)

abbrev formats : Formats tenths
formats = record { hours = λ t. some t; read_time = λ t. t }

abbrev tx : Tx tenths
tx = record { begins = true; inserts = λ s. true; commits = true }

provider-OneEach : OneEach tenths provider.table
unfolding load_one ◌=ₜ◌
provider-OneEach r (Memᴰ.head same) =
    subst (λ (x : Score tenths). load_one tenths provider.table x.agent_id_hash ≡ some x) (sym same)
      refl
provider-OneEach r (Memᴰ.tail at) = elim at [ ]

abbrev as_is : List (Score tenths) → List (Score tenths)
as_is rows = rows

-- The agent that was reported as blocked is not limited until the restart.
recalculate-restart_example :
    let (p', ok') = recalculate tenths multipliers formats tx provider (some scored) in
    (get_rate_multiplier tenths multipliers p' (codes "b")
      ≡ or_one tenths (multiplier_of tenths multipliers none (last_of tenths (codes "b") scored)))
    × (get_rate_multiplier tenths multipliers
          (new_local_provider tenths multipliers (λ t. some (load_all tenths as_is t)) p'.table)
          (codes "b")
        ≡ or_one tenths (
            multiplier_of tenths multipliers
              (multiplier_of tenths multipliers none (load_one tenths provider.table (codes "b")))
              (last_of tenths (codes "b") scored)))
unfolding save_all ◌=ₜ◌
recalculate-restart_example =
    recalculate-restart tenths multipliers formats tx provider scored
      (reported ∷ score_of (codes "a") ∷ []) as_is (codes "b") provider-OneEach refl
      (λ r. (λ m. m, λ m. m))

abbrev weights : ScoreWeights tenths
weights = record {
  success_rate = 4;
  error_penalty = 3;
  latency = 1;
  volume = 1;
  auth_failure = 2;
  rate_limit = 2;
}

abbrev thresholds : Thresholds tenths
thresholds = record { trusted_from = 8; normal_from = 5; suspicious_from = 2 }

abbrev entry : Text → ℕ → ActionLog ℕ
entry agent timestamp = record {
  timestamp = timestamp;
  agent_id_hash = agent;
  method = codes "tools/call";
  direction = codes "in";
  success = true;
  latency_ms = 20;
  payload_size = 1;
  auth_status = codes "verified";
  error_code = [];
  ip_address = [];
  upstream_name = [];
  correlation_id = [];
}

abbrev entries : List (ActionLog ℕ)
entries = entry (codes "a") 1 ∷ entry (codes "b") 5000 ∷ entry (codes "a") 6000 ∷ []

abbrev queries : Queries tenths
queries = record { second = 1; average = λ ts. 20; read_time = λ t. t }

recalculate_all-agrees_example :
    (last_of tenths
        (codes "a")
        (recalculate_all tenths queries 1 7000 weights thresholds (codes "1h") entries)
      ≡ recalculate_one tenths queries 1 7000 weights thresholds (codes "1h") entries (codes "a"))
    × ((recalculate_one tenths queries 1 7000 weights thresholds (codes "1h") entries (codes "a")
          ≡ none)
        ↔ AllOld tenths queries 1 7000 (codes "a") entries)
unfolding is_empty
recalculate_all-agrees_example =
    recalculate_all-agrees tenths queries 1 7000 weights thresholds (codes "1h") entries (codes "a")
      refl
