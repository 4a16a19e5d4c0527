-- ===== src/Storage/Schema.antt =====
-- The migrations of internal/storage/db.go. Of a migration's SQL we keep the tables that it creates if
-- they do not exist and the columns that it adds to a table that exists; adding a column that is there
-- or whose table is not is an error. `records` tells whether the row of a version can be written.
pub mod Upgrade
use shield_agent.Prelude.{
  ℕ, ◌==◌, ◌&&◌, ◌||◌, not, Bool, true, false, Option, none, some, List, [], ◌∷◌, ◌++◌, Text, codes,
  ◌=ₜ◌, any, leb, if◌then◌else◌,
}

pub record Migration : Type 0 where
  pub version : ℕ
  pub tables : List Text
  pub columns : List (Text × Text)

abbrev pub creates : ℕ → List Text → Migration
creates version tables = record { version = version; tables = tables; columns = [] }

abbrev pub adds : ℕ → Text → Text → Migration
adds version table column = record {
  version = version;
  tables = [];
  columns = (table, column) ∷ [];
}

abbrev pub migrations : List Migration
migrations =
    creates 1 (codes "action_logs" ∷ [])
    ∷ adds 2 (codes "action_logs") (codes "ip_address")
    ∷ creates 3 (codes "tokens" ∷ [])
    ∷ creates 4 (codes "token_usage" ∷ [])
    ∷ creates 5 (codes "admin_config" ∷ [])
    ∷ creates 6 (codes "agent_keys" ∷ [])
    ∷ adds 7 (codes "action_logs") (codes "upstream_name")
    ∷ creates 8 (codes "upstreams" ∷ [])
    ∷ creates 9 (codes "reputation_scores" ∷ [])
    ∷ creates 10 (codes "egress_logs" ∷ codes "egress_log_anchors" ∷ [])
    ∷ adds 11 (codes "action_logs") (codes "correlation_id")
    ∷ []

-- The tables, the columns that were added, and the rows of `schema_versions`
pub record Schema : Type 0 where
  pub tables : List Text
  pub columns : List (Text × Text)
  pub versions : List ℕ

abbrev pub new_schema : Schema
new_schema = record { tables = []; columns = []; versions = [] }

pub data MigrationError : Type 0 where
  applying recording : ℕ → MigrationError

abbrev pub is_column : Text × Text → Text × Text → Bool
is_column c d = c.0 =ₜ d.0 && c.1 =ₜ d.1

abbrev pub has_column : Schema → Text × Text → Bool
has_column s c = any (is_column c) s.columns

abbrev pub has_table : Schema → Text → Bool
has_table s t = any (λ u. u =ₜ t) s.tables

abbrev pub add_table : Text → List Text → List Text
add_table t tables = if any (λ u. u =ₜ t) tables then tables else tables ++ t ∷ []

abbrev pub add_tables : List Text → List Text → List Text
add_tables [] tables = tables
add_tables (t ∷ ts) tables = add_tables ts (add_table t tables)

unfoldable pub exec : Migration → Schema → Option Schema
unfolding ◌=ₜ◌
exec m s =
    if any (λ c. has_column s c || not (has_table s c.0)) m.columns
    then none
    else some (record s { tables = add_tables m.tables s.tables; columns = s.columns ++ m.columns })

abbrev pub larger : ℕ → ℕ → ℕ
larger a b = if leb a b then b else a

-- `SELECT COALESCE(MAX(version), 0)`
unfoldable pub current_version : List ℕ → ℕ
current_version [] = 0
current_version (v ∷ versions) = larger v (current_version versions)

-- The loop, for the version that was current before it
unfoldable pub apply_pending :
    (ℕ → Bool) → ℕ → List Migration → Schema → Schema × Option MigrationError
unfolding exec
apply_pending records current [] s = (s, none)
apply_pending records current (m ∷ ms) s = elim (leb m.version current) [
  | true ↦ apply_pending records current ms s
  | false ↦ elim (exec m s) [
    | none ↦ (s, some (applying m.version))
    | some s' ↦ elim (records m.version) [
      | false ↦ (s', some (recording m.version))
      | true ↦
          apply_pending records current ms (record s' { versions = s'.versions ++ m.version ∷ [] })
    ]
  ]
]

unfoldable pub migrate : (ℕ → Bool) → Schema → Schema × Option MigrationError
unfolding apply_pending current_version
migrate records s = apply_pending records (current_version s.versions) migrations s
