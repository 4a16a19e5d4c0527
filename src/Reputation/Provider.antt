-- ===== src/Reputation/Provider.antt =====
-- The provider of internal/reputation/provider.go and its table, store.go. A row is the score that
-- reading it gives: `hours` is what Sscanf and Sprintf make of the length of the window (`none` where it
-- does not scan), and `read_time` what the driver and parseTime make of a time. `by_trust` is ORDER BY
-- trust_score DESC.
pub mod Saved
pub mod Restarted
use shield_agent.Prelude.{
  ℕ, Bool, true, false, not, ◌&&◌, Option, none, some, List, [], ◌∷◌, ◌++◌, Text, codes, ◌=ₜ◌, keep,
  length, ltb, if◌then◌else◌,
}
use shield_agent.Prelude.Map.{Map}
use shield_agent.Prelude.Result.{Result, ok, err}
use shield_agent.Reputation.{Floats, Score, Cache, new_cache, get_multiplier, update}

pub data SaveError : Type 0 where
  begin_tx commit_tx : SaveError
  insert_row : Text → SaveError

module _ (fl : Floats) where
  -- What the database does in a transaction
  pub record Tx : Type 0 where
    pub begins : Bool
    pub inserts : Score fl → Bool
    pub commits : Bool

  pub record Formats : Type 0 where
    pub hours : Text → Option Text
    pub read_time : ℕ → ℕ

  pub record LocalProvider : Type 0 where
    pub cache : Cache fl
    pub table : List (Score fl)

  -- 24 hours where the window does not scan
  abbrev pub window_or_day : Option Text → Text
  window_or_day none = codes "24h"
  window_or_day (some window) = window

  unfoldable pub as_read : Formats → Score fl → Score fl
  as_read f s = record s {
    first_seen = f.read_time s.first_seen;
    last_seen = f.read_time s.last_seen;
    computed_at = f.read_time s.computed_at;
    window_duration = window_or_day (f.hours s.window_duration);
  }

  -- `INSERT OR REPLACE` of one row
  unfoldable pub save_row : Score fl → List (Score fl) → List (Score fl)
  unfolding ◌=ₜ◌
  save_row row rows =
      keep (λ (r : Score fl). not (r.agent_id_hash =ₜ row.agent_id_hash)) rows ++ row ∷ []

  -- The loop of a transaction, up to its first failure
  unfoldable pub save_rows :
      Formats → Tx → List (Score fl) → List (Score fl) → Result SaveError (List (Score fl))
  unfolding save_row as_read
  save_rows f tx rows [] = ok rows
  save_rows f tx rows (s ∷ scores) =
      let rest = save_rows f tx (save_row (as_read f s) rows) scores in
      if tx.inserts s then rest else err (insert_row s.agent_id_hash)

  unfoldable pub save_all :
      Formats → Tx → List (Score fl) → List (Score fl) → Result SaveError (List (Score fl))
  unfolding save_rows
  save_all f tx rows scores =
      if not tx.begins then err begin_tx else elim (save_rows f tx rows scores) [
        | err e ↦ err e
        | ok saved ↦ if tx.commits then ok saved else err commit_tx
      ]

  unfoldable pub load_all : (List (Score fl) → List (Score fl)) → List (Score fl) → List (Score fl)
  load_all by_trust rows = by_trust rows

  unfoldable pub load_one : List (Score fl) → Text → Option (Score fl)
  unfolding ◌=ₜ◌
  load_one [] agent = none
  load_one (r ∷ rows) agent =
      let rest = load_one rows agent in if r.agent_id_hash =ₜ agent then some r else rest

  -- `computed_at < now - max_age`
  unfoldable pub purge_stale : ℕ → List (Score fl) → List (Score fl)
  purge_stale cutoff rows = keep (λ (r : Score fl). not (ltb r.computed_at cutoff)) rows

  module _ (rate_multipliers : Map fl.Float) where
    -- `none` where the table cannot be read
    unfoldable pub new_local_provider :
        (List (Score fl) → Option (List (Score fl))) → List (Score fl) → LocalProvider
    unfolding update
    new_local_provider load table = record {
      cache = elim (load table) [
        | none ↦ new_cache fl
        | some scores ↦
            if ltb 0 (length scores)
            then update fl rate_multipliers (new_cache fl) scores
            else new_cache fl
      ];
      table = table;
    }

    unfoldable pub get_score : LocalProvider → Text → Option (Score fl)
    unfolding load_one
    get_score p agent = elim (p.cache.scores agent) [
      | some s ↦ some s
      | none ↦ load_one p.table agent
    ]

    unfoldable pub get_rate_multiplier : LocalProvider → Text → fl.Float
    unfolding get_multiplier
    get_rate_multiplier p agent = get_multiplier fl p.cache agent

    abbrev pub as_remote : List (Score fl) → List (Score fl)
    as_remote [] = []
    as_remote (s ∷ scores) = record s { source = codes "remote" } ∷ as_remote scores

    -- The number of scores that were accepted
    unfoldable pub report_scores :
        Formats → Tx → LocalProvider → List (Score fl) → LocalProvider × Result SaveError ℕ
    unfolding save_all
    report_scores f tx p scores = elim (save_all f tx p.table (as_remote scores)) [
      | err e ↦ (p, err e)
      | ok table ↦ (record p { table = table }, ok (length (as_remote scores)))
    ]

    abbrev pub saved_or_old : List (Score fl) → Result SaveError (List (Score fl)) → List (Score fl)
    saved_or_old old (ok table) = table
    saved_or_old old (err _) = old

    -- `calculated` is what the calculator gives, `none` where it fails; a failure to save is logged.
    unfoldable pub recalculate :
        Formats → Tx → LocalProvider → Option (List (Score fl)) → LocalProvider × Bool
    unfolding save_all update
    recalculate f tx p calculated = elim calculated [
      | none ↦ (p, false)
      | some scores ↦ (
        record {
          cache = update fl rate_multipliers p.cache scores;
          table = saved_or_old p.table (save_all f tx p.table scores);
        },
        true,
      )
    ]

    -- The loop, with what the calculator gives at the start and at each tick
    unfoldable pub run_recalc_loop :
        Formats → Tx → LocalProvider → List (Option (List (Score fl))) → LocalProvider
    unfolding recalculate
    run_recalc_loop f tx p [] = p
    run_recalc_loop f tx p (c ∷ ticks) = run_recalc_loop f tx (recalculate f tx p c).0 ticks
