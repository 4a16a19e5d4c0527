-- ===== src/Reputation/Stats.antt =====
-- The queries of internal/reputation/calculator.go over the action log. `window` is a number of
-- hours, `average` is AVG, `read_time` what the driver and parseTime make of a time. The groups stand in
-- the order of their first rows, which SQL leaves open.
pub mod Agreed
pub mod Window
use shield_agent.Prelude.{
  ℕ, ◌+◌, ◌*◌, Bool, true, false, not, ◌&&◌, ◌||◌, Option, none, some, List, [], ◌∷◌, Text, codes,
  ◌=ₜ◌, is_empty, keep, map, length, count_if, ltb, leb, if◌then◌else◌,
}
use shield_agent.MessageLog.{ActionLog}
use shield_agent.Reputation.{Floats, AgentStats, ScoreWeights, Thresholds, Score, compute_score}

abbrev pub seconds_per_hour : ℕ
seconds_per_hour = 3600

-- The first occurrence of each text
abbrev pub distinct : List Text → List Text
distinct [] = []
distinct (t ∷ ts) = t ∷ keep (λ u. not (u =ₜ t)) (distinct ts)

module _ (fl : Floats) where
  abbrev pub Logs : Type 0
  Logs = List (ActionLog fl.Float)

  pub record Queries : Type 0 where
    pub second : ℕ
    pub average : List fl.Float → fl.Float
    pub read_time : ℕ → ℕ

  abbrev pub earliest : ℕ → Logs → ℕ
  earliest t [] = t
  earliest t (l ∷ logs) = earliest (if ltb l.timestamp t then l.timestamp else t) logs

  abbrev pub latest : ℕ → Logs → ℕ
  latest t [] = t
  latest t (l ∷ logs) = latest (if ltb t l.timestamp then l.timestamp else t) logs

  abbrev pub is_rate_limit : Text → Bool
  is_rate_limit code = code =ₜ codes "429" || code =ₜ codes "-32001"

  abbrev pub add_group : Option (AgentStats fl) → List (AgentStats fl) → List (AgentStats fl)
  add_group none stats = stats
  add_group (some s) stats = s ∷ stats

  module _ (q : Queries) (window now : ℕ) where
    abbrev pub is_recent : ActionLog fl.Float → Bool
    is_recent l = leb now (l.timestamp + window * (seconds_per_hour * q.second))

    abbrev pub rows_of : Text → Logs → Logs
    rows_of agent logs =
        keep (λ (l : ActionLog fl.Float). l.agent_id_hash =ₜ agent && is_recent l) logs

    -- The row of a group that has an entry
    abbrev pub aggregate : Text → ActionLog fl.Float → Logs → AgentStats fl
    aggregate agent l logs =
        let rows = l ∷ logs in
        record {
          agent_id_hash = agent;
          request_count = length rows;
          success_count = count_if (λ (r : ActionLog fl.Float). r.success) rows;
          error_count = count_if (λ (r : ActionLog fl.Float). not r.success) rows;
          avg_latency_ms = q.average (map (λ (r : ActionLog fl.Float). r.latency_ms) rows);
          first_seen = q.read_time (earliest l.timestamp logs);
          last_seen = q.read_time (latest l.timestamp logs);
          auth_failures =
              count_if (λ (r : ActionLog fl.Float). r.auth_status =ₜ codes "failed") rows;
          rate_limit_hits = count_if (λ (r : ActionLog fl.Float). is_rate_limit r.error_code) rows;
        }

    abbrev pub group : Text → Logs → Option (AgentStats fl)
    group agent [] = none
    group agent (l ∷ logs) = some (aggregate agent l logs)

    unfoldable pub query_agent_stats : Logs → Text → Option (AgentStats fl)
    unfolding ◌=ₜ◌
    query_agent_stats logs agent = group agent (rows_of agent logs)

    -- The agents of the rows that WHERE leaves
    abbrev pub agents_in : Logs → List Text
    unfolding is_empty
    agents_in [] = []
    agents_in (l ∷ logs) =
        let rest = agents_in logs in
        if not (is_empty l.agent_id_hash) && is_recent l then l.agent_id_hash ∷ rest else rest

    abbrev pub groups : Logs → List Text → List (AgentStats fl)
    groups logs [] = []
    groups logs (agent ∷ agents) = add_group (group agent (rows_of agent logs)) (groups logs agents)

    unfoldable pub query_all_agent_stats : Logs → List (AgentStats fl)
    unfolding agents_in ◌=ₜ◌
    query_all_agent_stats logs = groups logs (distinct (agents_in logs))

    module _ (w : ScoreWeights fl) (t : Thresholds fl) (window_text : Text) where
      unfoldable pub recalculate_all : Logs → List (Score fl)
      unfolding query_all_agent_stats compute_score
      recalculate_all logs = map (compute_score fl w t window_text now) (query_all_agent_stats logs)

      unfoldable pub recalculate_one : Logs → Text → Option (Score fl)
      unfolding query_agent_stats compute_score
      recalculate_one logs agent = elim (query_agent_stats logs agent) [
        | none ↦ none
        | some s ↦ some (compute_score fl w t window_text now s)
      ]
