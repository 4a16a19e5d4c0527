-- ===== src/Reputation/Stats/Window.antt =====
-- The agents that have a score: those with an entry that is not older than the window.
use mathlib.Core.Path.{subst}
use mathlib.Core.List.{Memᴰ}
use shield_agent.Prelude.{
  ℕ, ◌+◌, ◌*◌, ◌<◌, ◌≡◌, ◌↔◌, refl, sym, ap, ◌∙◌, inl, inr, true, false, none, [], ◌∷◌, Text, ◌=ₜ◌,
  =ₜ_iff, is_empty, arith, Bool-cases,
}
use shield_agent.MessageLog.{ActionLog}
use shield_agent.Reputation.{Floats, ScoreWeights, Thresholds}
use shield_agent.Reputation.Cached.{last_of}
use shield_agent.Reputation.Stats.{
  Logs, Queries, is_recent, rows_of, group, recalculate_all, recalculate_one,
}
use shield_agent.Reputation.Stats.Agreed.{
  is_cons, score_of, recalculate_one-score, last_of-recalculate_all,
}

module _ (fl : Floats) (q : Queries fl) (window now : ℕ) where
  -- Every entry of the agent is older than the window, a number of hours.
  abbrev pub AllOld : Text → Logs fl → Type 0
  AllOld agent logs =
      (l : ActionLog fl.Float)
      → Memᴰ l logs
      → l.agent_id_hash ≡ agent
      → l.timestamp + window * (3600 * q.second) < now

  old :
      (l : ActionLog fl.Float)
      → is_recent fl q window now l ≡ false
      → l.timestamp + window * (3600 * q.second) < now
  old l h = ground arith

  rest_old :
      (agent : Text) (e : ActionLog fl.Float) (logs : Logs fl)
      → is_cons (rows_of fl q window now agent (e ∷ logs)) ≡ false
      → is_cons (rows_of fl q window now agent logs) ≡ false
  rest_old agent e logs h = ground arith

  rows_of-AllOld :
      (agent : Text) (logs : Logs fl)
      → is_cons (rows_of fl q window now agent logs) ≡ false
      → AllOld agent logs
  rows_of-AllOld agent [] h l m own = elim m [ ]
  rows_of-AllOld agent (e ∷ logs) h l (Memᴰ.head same) own =
      let own' : e.agent_id_hash =ₜ agent ≡ true =
        (=ₜ_iff e.agent_id_hash agent).1
          (ap (λ (x : ActionLog fl.Float). x.agent_id_hash) (sym same) ∙ own) in
      elim (Bool-cases (is_recent fl q window now e)) [
        | inl recent ↦ absurd (ground arith)
        | inr late ↦
            subst (λ (x : ActionLog fl.Float). x.timestamp + window * (3600 * q.second) < now)
              (sym same) (old e late)
      ]
  rows_of-AllOld agent (e ∷ logs) h l (Memᴰ.tail at) own =
      rows_of-AllOld agent logs (rest_old agent e logs h) l at own

  AllOld-rows_of :
      (agent : Text) (logs : Logs fl)
      → AllOld agent logs
      → is_cons (rows_of fl q window now agent logs) ≡ false
  AllOld-rows_of agent [] h = refl
  AllOld-rows_of agent (e ∷ logs) h =
      let rest = AllOld-rows_of agent logs (λ l at own. h l (Memᴰ.tail at) own) in
      elim (Bool-cases (e.agent_id_hash =ₜ agent)) [
        | inl own ↦
            let late = h e (Memᴰ.head refl) ((=ₜ_iff e.agent_id_hash agent).0 own) in
            ground (arith, rest)
        | inr other ↦ ground (arith, rest)
      ]

  module _ (w : ScoreWeights fl) (t : Thresholds fl) (window_text : Text) where
    none_iff :
        (agent : Text) (rows : Logs fl)
        → (score_of fl q window now w t window_text (group fl q window now agent rows) ≡ none)
          ↔ (is_cons rows ≡ false)
    none_iff agent [] = (λ h. refl, λ h. refl)
    none_iff agent (l ∷ rows) = (λ h. absurd (ground arith), λ h. absurd (ground arith))

    -- For an agent with an id, its score among those of all agents is the one that is calculated for it
    -- alone, and that one is absent exactly if every entry of the agent is older than the window.
    pub recalculate_all-agrees :
        (logs : Logs fl) (agent : Text)
        → is_empty agent ≡ false
        → (last_of fl agent (recalculate_all fl q window now w t window_text logs)
            ≡ recalculate_one fl q window now w t window_text logs agent)
          × ((recalculate_one fl q window now w t window_text logs agent ≡ none)
              ↔ AllOld agent logs)
    recalculate_all-agrees logs agent named =
        let rows = rows_of fl q window now agent logs in
        let one = recalculate_one-score fl q window now w t window_text logs agent in
        (
          last_of-recalculate_all fl q window now w t window_text logs agent named,
          (
            λ h. rows_of-AllOld agent logs ((none_iff agent rows).0 (sym one ∙ h)),
            λ h. one ∙ (none_iff agent rows).1 (AllOld-rows_of agent logs h),
          ),
        )
