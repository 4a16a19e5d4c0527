-- ===== src/Audit/Store.antt =====
-- The egress tables of internal/storage/egress.go. A table is its rows in the order of their ids,
-- which AUTOINCREMENT hands out and never again; a transaction that commits is one step. Failures
-- of the database are not in this model, and `cutoff` is what `time.Now().AddDate` gives.
pub mod Purging
use shield_agent.Prelude.{
  ℕ, zero, suc, ◌+◌, Bool, true, false, not, Option, none, some, List, [], ◌∷◌, ◌++◌, Text, codes,
  String, ltb, keep, count_if, if◌then◌else◌, length,
}
use shield_agent.Prelude.Int.{ℤ, pos, negsuc, positive}
use shield_agent.Audit.Row.{Formats, EgressLog, EgressAnchor}

abbrev pub last? {ℓ} : {A : Type ℓ} → List A → Option A
last? [] = none
last? (x ∷ []) = some x
last? (_ ∷ y ∷ xs) = last? (y ∷ xs)

module _ (fm : Formats) where
  abbrev Log : Type 0
  Log = EgressLog fm

  pub record Db : Type 0 where
    pub rows : List Log
    pub anchors : List EgressAnchor
    pub next_id : ℕ

  abbrev pub empty_db : Db
  empty_db = record { rows = []; anchors = []; next_id = 1 }

  -- The row gets the next id, whatever id it came with.
  unfoldable pub insert_egress_log : Db → Log → Db × ℕ
  insert_egress_log db log = (
    record db { rows = db.rows ++ record log { id = db.next_id } ∷ []; next_id = db.next_id + 1 },
    db.next_id,
  )

  -- The newest row's hash, else the newest anchor's, else the empty text.
  unfoldable pub last_egress_row_hash : Db → Text
  last_egress_row_hash db = elim (last? db.rows) [
    | some row ↦ row.row_hash
    | none ↦ elim (last? db.anchors) [ some anchor ↦ anchor.chain_hash | none ↦ codes "" ]
  ]

  abbrev pub is_old : ℕ → Log → Bool
  is_old cutoff row = ltb row.timestamp cutoff

  -- `SELECT id, row_hash … WHERE timestamp < ? ORDER BY id DESC LIMIT 1`
  unfoldable pub purge_boundary : ℕ → List Log → Option Log
  purge_boundary cutoff rows = last? (keep (is_old cutoff) rows)

  -- `SELECT id … WHERE id > ? ORDER BY id ASC LIMIT 1`, or -1
  abbrev pub next_row_after : ℕ → List Log → ℤ
  next_row_after last_id [] = negsuc 0
  next_row_after last_id (row ∷ rows) =
      let rest = next_row_after last_id rows in if ltb last_id row.id then pos row.id else rest

  abbrev pub purge_at : Db → ℕ → ℕ → Option Log → Db × ℕ
  purge_at db now cutoff none = (db, 0)
  purge_at db now cutoff (some boundary) = (
    record db {
      rows = keep (λ row. not (is_old cutoff row)) db.rows;
      anchors =
          db.anchors
          ++ record {
            anchor_timestamp = now;
            purged_up_to_id = boundary.id;
            purged_count = count_if (is_old cutoff) db.rows;
            chain_hash = boundary.row_hash;
            next_row_id = next_row_after boundary.id db.rows;
          }
            ∷ [];
    },
    count_if (is_old cutoff) db.rows,
  )

  -- `retentionDays <= 0` purges nothing.
  unfoldable pub purge_egress : Db → ℤ → ℕ → ℕ → Db × ℕ
  unfolding purge_boundary
  purge_egress db retention_days now cutoff =
      if positive retention_days
      then purge_at db now cutoff (purge_boundary cutoff db.rows)
      else (db, 0)

  -- `CountEgressLogs(0)`
  unfoldable pub count_egress_logs : Db → ℕ
  count_egress_logs db = length db.rows
