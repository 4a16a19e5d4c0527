-- ===== src/Reputation/Stats/Agreed.antt =====
-- The query for all agents and the query for one.
use shield_agent.Prelude.{
  ℕ, ◌≡◌, ap, refl, sym, ◌∙◌, inl, inr, Bool, true, false, not, ◌&&◌, Option, none, some, List, [],
  ◌∷◌, Text, ◌=ₜ◌, =ₜ_iff, is_empty, keep, any, map, arith, if◌then◌else◌, Bool-cases, Option-cases,
}
use shield_agent.Reputation.{Floats, AgentStats, ScoreWeights, Thresholds, Score, compute_score}
use shield_agent.Reputation.Cached.{last_of}
use shield_agent.Reputation.Stats.{
  Logs, Queries, distinct, rows_of, group, agents_in, add_group, groups, query_all_agent_stats,
  query_agent_stats, recalculate_all, recalculate_one,
}

-- Whether a list has a text
abbrev has : Text → List Text → Bool
has agent ts = any (λ t. t =ₜ agent) ts

has-keep :
    (agent t : Text) (ts : List Text)
    → has agent (keep (λ u. not (u =ₜ t)) ts) ≡ has agent ts && not (t =ₜ agent)
has-keep agent t [] = refl
has-keep agent t (u ∷ ts) =
    ground (arith, has-keep agent t ts, =ₜ_iff u t, =ₜ_iff u agent, =ₜ_iff t agent)

has-distinct : (agent : Text) (ts : List Text) → has agent (distinct ts) ≡ has agent ts
has-distinct agent [] = refl
has-distinct agent (t ∷ ts) = ground (arith, has-keep agent t (distinct ts), has-distinct agent ts)

is_empty-same : (a b : Text) → a =ₜ b ≡ true → is_empty b ≡ false → is_empty a ≡ false
is_empty-same a b same h = ap is_empty ((=ₜ_iff a b).0 same) ∙ h

abbrev pub is_cons {ℓ} : {A : Type ℓ} → List A → Bool
is_cons [] = false
is_cons (_ ∷ _) = true

module _ (fl : Floats) (q : Queries fl) (window now : ℕ) where
  -- An agent has a group exactly if it has an entry in the window.
  has-agents_in :
      (agent : Text) (logs : Logs fl)
      → is_empty agent ≡ false
      → has agent (agents_in fl q window now logs) ≡ is_cons (rows_of fl q window now agent logs)
  unfolding agents_in
  has-agents_in agent [] named = refl
  has-agents_in agent (l ∷ logs) named = elim (Bool-cases (l.agent_id_hash =ₜ agent)) [
    | inl own ↦
        ground
          (arith, has-agents_in agent logs named, is_empty-same l.agent_id_hash agent own named)
    | inr other ↦ ground (arith, has-agents_in agent logs named)
  ]

  -- The group of an agent
  abbrev pub group_of : Logs fl → Text → Option (AgentStats fl)
  group_of logs agent = group fl q window now agent (rows_of fl q window now agent logs)

  abbrev id_or : Text → Option (AgentStats fl) → Text
  id_or agent none = agent
  id_or agent (some s) = s.agent_id_hash

  id-group :
      (agent : Text) (rows : Logs fl) → id_or agent (group fl q window now agent rows) ≡ agent
  id-group agent [] = refl
  id-group agent (l ∷ rows) = refl

  module _ (w : ScoreWeights fl) (t : Thresholds fl) (window_text : Text) where
    abbrev pub score_of : Option (AgentStats fl) → Option (Score fl)
    score_of none = none
    score_of (some s) = some (compute_score fl w t window_text now s)

    abbrev scores_of : Logs fl → List Text → List (Score fl)
    scores_of logs agents =
        map (compute_score fl w t window_text now) (groups fl q window now logs agents)

    last_of-own :
        (x : Score fl) (xs : List (Score fl)) (agent : Text) (b : Bool)
        → x.agent_id_hash =ₜ agent ≡ true
        → last_of fl agent xs ≡ (if b then some x else none)
        → last_of fl agent (x ∷ xs) ≡ some x
    last_of-own x xs agent true own h = rw h refl
    last_of-own x xs agent false own h = rw (h, own) refl

    last_of-skip :
        (x : Score fl) (xs : List (Score fl)) (agent : Text)
        → x.agent_id_hash =ₜ agent ≡ false
        → last_of fl agent (x ∷ xs) ≡ last_of fl agent xs
    last_of-skip x xs agent other = elim (Option-cases (last_of fl agent xs)) [
      | inl unscored ↦ rw (unscored, other) refl
      | inr (y, later) ↦ rw later refl
    ]

    id-score :
        (s : AgentStats fl) (a agent : Text) (b : Bool)
        → s.agent_id_hash ≡ a
        → a =ₜ agent ≡ b
        → (compute_score fl w t window_text now s).agent_id_hash =ₜ agent ≡ b
    unfolding compute_score
    id-score s a agent b same h = ap (λ x. x =ₜ agent) same ∙ h

    nothing : (b : Bool) → (if b then score_of none else none) ≡ none
    nothing true = refl
    nothing false = refl

    -- The scores of a list from the group of its first agent
    abbrev with_score : Option (AgentStats fl) → List (Score fl) → List (Score fl)
    with_score none scores = scores
    with_score (some s) scores = compute_score fl w t window_text now s ∷ scores

    map-add :
        (o : Option (AgentStats fl)) (stats : List (AgentStats fl))
        → map (compute_score fl w t window_text now) (add_group fl o stats)
          ≡ with_score o (map (compute_score fl w t window_text now) stats)
    map-add none stats = refl
    map-add (some s) stats = refl

    scores_of-cons :
        (logs : Logs fl) (a : Text) (agents : List Text)
        → scores_of logs (a ∷ agents) ≡ with_score (group_of logs a) (scores_of logs agents)
    scores_of-cons logs a agents = map-add (group_of logs a) (groups fl q window now logs agents)

    last_of-with_score_own :
        (agent a : Text) (o : Option (AgentStats fl)) (scores : List (Score fl)) (b : Bool)
        → id_or a o ≡ a
        → a =ₜ agent ≡ true
        → last_of fl agent scores ≡ (if b then score_of o else none)
        → last_of fl agent (with_score o scores) ≡ score_of o
    last_of-with_score_own agent a none scores b id own h = h ∙ nothing b
    last_of-with_score_own agent a (some s) scores b id own h =
        last_of-own (compute_score fl w t window_text now s) scores agent b
          (id-score s a agent true id own) h

    last_of-with_score_other :
        (agent a : Text) (o : Option (AgentStats fl)) (scores : List (Score fl))
        → id_or a o ≡ a
        → a =ₜ agent ≡ false
        → last_of fl agent (with_score o scores) ≡ last_of fl agent scores
    last_of-with_score_other agent a none scores id other = refl
    last_of-with_score_other agent a (some s) scores id other =
        last_of-skip (compute_score fl w t window_text now s) scores agent
          (id-score s a agent false id other)

    last_of-groups :
        (logs : Logs fl) (agent : Text) (agents : List Text)
        → last_of fl agent (scores_of logs agents)
          ≡ (if has agent agents then score_of (group_of logs agent) else none)
    last_of-groups logs agent [] = refl
    last_of-groups logs agent (a ∷ agents) =
        let rest = last_of-groups logs agent agents in
        let id = id-group a (rows_of fl q window now a logs) in
        let scores = scores_of logs agents in
        ap (last_of fl agent) (scores_of-cons logs a agents) ∙ elim (Bool-cases (a =ₜ agent)) [
          | inr other ↦
              rw other (last_of-with_score_other agent a (group_of logs a) scores id other ∙ rest)
          | inl own ↦
              let same : group_of logs agent ≡ group_of logs a =
                ap (group_of logs) (sym ((=ₜ_iff a agent).0 own)) in
              let h = rest ∙ ap (λ o. if has agent agents then score_of o else none) same in
              rw own (
                last_of-with_score_own agent a (group_of logs a) scores (has agent agents) id own h
                ∙ ap score_of (sym same))
        ]

    only_group :
        (agent : Text) (rows : Logs fl)
        → (if is_cons rows then score_of (group fl q window now agent rows) else none)
          ≡ score_of (group fl q window now agent rows)
    only_group agent [] = refl
    only_group agent (l ∷ rows) = refl

    same_score :
        (o : Option (AgentStats fl))
        → (elim o [ none ↦ none | some s ↦ some (compute_score fl w t window_text now s) ])
          ≡ score_of o
    same_score none = refl
    same_score (some s) = refl

    pub recalculate_one-score :
        (logs : Logs fl) (agent : Text)
        → recalculate_one fl q window now w t window_text logs agent
          ≡ score_of (group_of logs agent)
    unfolding recalculate_one query_agent_stats
    recalculate_one-score logs agent = same_score (group_of logs agent)

    -- For an agent with an id, its score among those of all agents is the one that is calculated for it
    -- alone.
    pub last_of-recalculate_all :
        (logs : Logs fl) (agent : Text)
        → is_empty agent ≡ false
        → last_of fl agent (recalculate_all fl q window now w t window_text logs)
          ≡ recalculate_one fl q window now w t window_text logs agent
    unfolding recalculate_all query_all_agent_stats
    last_of-recalculate_all logs agent named =
        let agents = agents_in fl q window now logs in
        last_of-groups logs agent (distinct agents)
        ∙ ap (λ b. if b then score_of (group_of logs agent) else none)
            (has-distinct agent agents ∙ has-agents_in agent logs named)
        ∙ only_group agent (rows_of fl q window now agent logs)
        ∙ sym (recalculate_one-score logs agent)
