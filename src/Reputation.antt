-- ===== src/Reputation.antt =====
-- The scores of internal/reputation: calculator.go and the cache of cache.go. Floating-point numbers
-- and their operations are the parameter `Floats`; the statistics are what the query over the action
-- log returns, and `window` is the printed length of its window.
pub mod Cached
pub mod Provider
pub mod Stats
mod Examples
use shield_agent.Prelude.{
  ℕ, Bool, true, false, Option, none, some, List, [], ◌∷◌, Text, codes, if◌then◌else◌,
}
use shield_agent.Prelude.Map.{Map, empty, insert}

pub record Floats : Type 1 where
  pub Float : Type 0
  pub of_nat : ℕ → Float
  pub zero_f : Float
  pub one_f : Float
  pub half : Float
  pub add : Float → Float → Float
  pub sub : Float → Float → Float
  pub mul : Float → Float → Float
  pub div : Float → Float → Float
  pub less : Float → Float → Bool
  pub at_least : Float → Float → Bool

pub data TrustLevel : Type 0 where
  trusted normal suspicious blocked_level : TrustLevel

abbrev pub level_name : TrustLevel → Text
level_name trusted = codes "trusted"
level_name normal = codes "normal"
level_name suspicious = codes "suspicious"
level_name blocked_level = codes "blocked"

module _ (fl : Floats) where
  pub record AgentStats : Type 0 where
    pub agent_id_hash : Text
    pub request_count : ℕ
    pub success_count : ℕ
    pub error_count : ℕ
    pub avg_latency_ms : fl.Float
    pub first_seen : ℕ
    pub last_seen : ℕ
    pub auth_failures : ℕ
    pub rate_limit_hits : ℕ

  pub record ScoreWeights : Type 0 where
    pub success_rate : fl.Float
    pub error_penalty : fl.Float
    pub latency : fl.Float
    pub volume : fl.Float
    pub auth_failure : fl.Float
    pub rate_limit : fl.Float

  pub record Thresholds : Type 0 where
    pub trusted_from : fl.Float
    pub normal_from : fl.Float
    pub suspicious_from : fl.Float

  pub record Score : Type 0 where
    pub agent_id_hash : Text
    pub trust_level : TrustLevel
    pub trust_score : fl.Float
    pub success_rate : fl.Float
    pub error_rate : fl.Float
    pub avg_latency_ms : fl.Float
    pub request_count : ℕ
    pub rate_limit_hits : ℕ
    pub auth_failures : ℕ
    pub first_seen : ℕ
    pub last_seen : ℕ
    pub computed_at : ℕ
    pub window_duration : Text
    pub source : Text

  unfoldable pub clamp : fl.Float → fl.Float → fl.Float → fl.Float
  clamp v lo hi = if fl.less v lo then lo else if fl.less hi v then hi else v

  unfoldable pub classify_trust_level : fl.Float → Thresholds → TrustLevel
  classify_trust_level score t =
      if fl.at_least score t.trusted_from
      then trusted
      else if fl.at_least score t.normal_from
      then normal
      else if fl.at_least score t.suspicious_from
      then suspicious
      else blocked_level

  -- A count over the number of requests, 0 where there are none
  abbrev pub rate_of : ℕ → fl.Float → fl.Float
  rate_of count total =
      if fl.less fl.zero_f total then fl.div (fl.of_nat count) total else fl.zero_f

  abbrev pub part : fl.Float → ℕ → fl.Float
  part v of = clamp (fl.div v (fl.of_nat of)) fl.zero_f fl.one_f

  -- Before the last clamp: the terms in the order of the source
  unfoldable pub trust_score_of : ScoreWeights → AgentStats → fl.Float
  unfolding clamp
  trust_score_of w s =
      let total = fl.of_nat s.request_count in
      let a = fl.add fl.half (fl.mul w.success_rate (rate_of s.success_count total)) in
      let b = fl.sub a (fl.mul w.error_penalty (rate_of s.error_count total)) in
      let c = fl.sub b (fl.mul w.latency (part s.avg_latency_ms 5000)) in
      let d = fl.add c (fl.mul w.volume (part total 1000)) in
      let e = fl.sub d (fl.mul w.auth_failure (part (fl.of_nat s.auth_failures) 10)) in
      fl.sub e (fl.mul w.rate_limit (part (fl.of_nat s.rate_limit_hits) 20))

  unfoldable pub compute_score : ScoreWeights → Thresholds → Text → ℕ → AgentStats → Score
  unfolding trust_score_of clamp classify_trust_level
  compute_score w t window now s =
      let total = fl.of_nat s.request_count in
      let score = clamp (trust_score_of w s) fl.zero_f fl.one_f in
      record {
        agent_id_hash = s.agent_id_hash;
        trust_level = classify_trust_level score t;
        trust_score = score;
        success_rate = rate_of s.success_count total;
        error_rate = rate_of s.error_count total;
        avg_latency_ms = s.avg_latency_ms;
        request_count = s.request_count;
        rate_limit_hits = s.rate_limit_hits;
        auth_failures = s.auth_failures;
        first_seen = s.first_seen;
        last_seen = s.last_seen;
        computed_at = now;
        window_duration = window;
        source = codes "local";
      }

  pub record Cache : Type 0 where
    pub scores : Map Score
    pub multipliers : Map fl.Float

  abbrev pub new_cache : Cache
  new_cache = record { scores = empty; multipliers = empty }

  abbrev pub or_one : Option fl.Float → fl.Float
  or_one none = fl.one_f
  or_one (some m) = m

  unfoldable pub get_multiplier : Cache → Text → fl.Float
  get_multiplier c agent = or_one (c.multipliers agent)

  abbrev pub add_score : Map fl.Float → Cache → Score → Cache
  add_score by_level c s = record {
    scores = insert s.agent_id_hash s c.scores;
    multipliers =
        insert s.agent_id_hash (or_one (by_level (level_name s.trust_level))) c.multipliers;
  }

  unfoldable pub add_scores : Map fl.Float → Cache → List Score → Cache
  add_scores by_level c [] = c
  add_scores by_level c (s ∷ scores) = add_scores by_level (add_score by_level c s) scores

  -- `update` starts from empty maps.
  unfoldable pub update : Map fl.Float → Cache → List Score → Cache
  unfolding add_scores
  update by_level c scores = add_scores by_level new_cache scores
