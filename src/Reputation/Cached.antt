-- ===== src/Reputation/Cached.antt =====
-- What the cache answers after an update.
use shield_agent.Prelude.{
  ◌≡◌, ap, refl, Option, none, some, List, [], ◌∷◌, Text, ◌=ₜ◌, arith, if◌then◌else◌,
}
use shield_agent.Prelude.Map.{Map}
use shield_agent.Reputation.{
  Floats, Score, Cache, level_name, or_one, get_multiplier, add_score, add_scores, update,
  new_cache,
}

module _ (fl : Floats) where
  -- The last score of an agent.
  abbrev pub last_of : Text → List (Score fl) → Option (Score fl)
  last_of agent [] = none
  last_of agent (s ∷ scores) = elim (last_of agent scores) [
    | some later ↦ some later
    | none ↦ if s.agent_id_hash =ₜ agent then some s else none
  ]

  -- What its level gives, else what was there.
  abbrev pub multiplier_of : Map fl.Float → Option fl.Float → Option (Score fl) → Option fl.Float
  multiplier_of by_level before none = before
  multiplier_of by_level before (some s) = some (or_one fl (by_level (level_name s.trust_level)))

  add_scores-last_of :
      (by_level : Map fl.Float) (c : Cache fl) (scores : List (Score fl)) (agent : Text)
      → (add_scores fl by_level c scores).multipliers agent
        ≡ multiplier_of by_level (c.multipliers agent) (last_of agent scores)
  unfolding add_scores
  add_scores-last_of by_level c [] agent = refl
  add_scores-last_of by_level c (s ∷ scores) agent =
      ground (arith, add_scores-last_of by_level (add_score fl by_level c s) scores agent)

  -- After an update an agent has the multiplier of its last score's level, and 1 if it has no score
  -- or its level no multiplier; what the cache held before does not matter.
  pub get_multiplier-update :
      (by_level : Map fl.Float) (c : Cache fl) (scores : List (Score fl)) (agent : Text)
      → get_multiplier fl (update fl by_level c scores) agent
        ≡ or_one fl (multiplier_of by_level none (last_of agent scores))
  unfolding get_multiplier update
  get_multiplier-update by_level c scores agent =
      ap (or_one fl) (add_scores-last_of by_level (new_cache fl) scores agent)
