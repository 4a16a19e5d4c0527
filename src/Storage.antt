-- ===== src/Storage.antt =====
-- The tables of internal/storage/db.go but that of the agent keys, which is Auth/KeyTable. A table is
-- its rows in the order of their insertion. `by_newest` is SQLite's ORDER BY timestamp DESC, which may
-- put rows of one time in any order; `read_time` is the time that is read of a stored one.
pub mod Schema
pub mod Overrides
use shield_agent.Prelude.{
  ℕ, ◌+◌, ◌-◌, ◌*◌, ◌==◌, ◌&&◌, ◌||◌, Bool, true, false, not, Option, none, some, List, [], ◌∷◌,
  ◌++◌, map, Text, codes, ◌=ₜ◌, is_empty, lower_byte, any, keep, leb, ltb, length, take, count_if,
  if◌then◌else◌,
}
use shield_agent.Prelude.Int.{ℤ, positive, pos_part}
use shield_agent.Prelude.Result.{Result, ok, err}
use shield_agent.MessageLog.{ActionLog}

pub record QueryOptions : Type 0 where
  pub last : ℤ
  pub agent_hash : Text
  pub since : ℤ
  pub method : Text
  pub upstream_name : Text

-- A condition on a column, where a text is given
abbrev pub or_any : Text → Text → Bool
or_any given column = is_empty given || column =ₜ given

abbrev pub limit_of : ℤ → ℕ
limit_of last = if positive last then pos_part last else 50

module _ {F : Type 0} where
  unfoldable pub insert_log : ActionLog F → List (ActionLog F) → List (ActionLog F)
  insert_log log logs = logs ++ log ∷ []

  -- The conditions of the query; `now - since <= timestamp` without going below 0
  unfoldable pub matches : QueryOptions → ℕ → ActionLog F → Bool
  unfolding ◌=ₜ◌ is_empty
  matches opts now log =
      or_any opts.agent_hash log.agent_id_hash
      && ((not (positive opts.since) || leb now (log.timestamp + pos_part opts.since))
          && (or_any opts.method log.method && or_any opts.upstream_name log.upstream_name))

  unfoldable pub query_logs :
      (List (ActionLog F) → List (ActionLog F))
      → (ℕ → ℕ)
      → QueryOptions
      → ℕ
      → List (ActionLog F)
      → List (ActionLog F)
  unfolding matches
  query_logs by_newest read_time opts now logs =
      map (λ (l : ActionLog F). record l { timestamp = read_time l.timestamp })
        (take (limit_of opts.last) (by_newest (keep (matches opts now) logs)))

  abbrev pub is_old : ℕ → ActionLog F → Bool
  is_old cutoff log = ltb log.timestamp cutoff

  -- `Purge`, of the time that many days ago: what is left, and the number of rows deleted
  unfoldable pub purge : ℕ → List (ActionLog F) → List (ActionLog F) × ℕ
  purge cutoff logs = (keep (λ l. not (is_old cutoff l)) logs, count_if (is_old cutoff) logs)

-- `admin_config`, with one row for each key
abbrev pub ConfigTable : Type 0
ConfigTable = List (Text × Text)

-- `INSERT OR REPLACE`
unfoldable pub save_config : Text → Text → ConfigTable → ConfigTable
unfolding ◌=ₜ◌
save_config key value rows =
    keep (λ (row : Text × Text). not (row.0 =ₜ key)) rows ++ (key, value) ∷ []

unfoldable pub load_config : Text → ConfigTable → Option Text
unfolding ◌=ₜ◌
load_config key [] = none
load_config key ((k, v) ∷ rows) =
    let rest = load_config key rows in if k =ₜ key then some v else rest

-- A test that holds of some tail
abbrev pub of_tail : (Text → Bool) → Text → Bool
of_tail p [] = p []
of_tail p (c ∷ s) = p (c ∷ s) || of_tail p s

abbrev pub like_byte : ℕ → ℕ → Bool
unfolding lower_byte
like_byte p c = p == b'_' || lower_byte p == lower_byte c

-- SQLite's LIKE: `%` is any text, `_` any character, and ASCII letters match in either case.
unfoldable pub like : Text → Text → Bool
unfolding lower_byte
like [] [] = true
like [] (_ ∷ _) = false
like (p ∷ ps) [] = if p == b'%' then like ps [] else false
like (p ∷ ps) (c ∷ s) = if p == b'%' then of_tail (like ps) (c ∷ s) else like_byte p c && like ps s

unfoldable pub load_config_prefix : Text → ConfigTable → ConfigTable
unfolding like
load_config_prefix prefix rows = keep (λ (row : Text × Text). like (prefix ++ b'%' ∷ []) row.0) rows

pub record UpstreamRow : Type 0 where
  pub name : Text
  pub url : Text
  pub match_host : Text
  pub match_prefix : Text
  pub strip_prefix : Bool
  pub transport : Text
  pub tls_skip_verify : Bool
  pub active : Bool
  pub created_at : ℕ

pub data UpstreamError : Type 0 where
  name_taken upstream_not_found : UpstreamError

abbrev pub is_named : Text → UpstreamRow → Bool
is_named name u = u.name =ₜ name

-- The columns of the statement; the others keep what they have.
abbrev pub with_columns : UpstreamRow → UpstreamRow → UpstreamRow
with_columns u row = record row {
  url = u.url;
  match_host = u.match_host;
  match_prefix = u.match_prefix;
  strip_prefix = u.strip_prefix;
  transport = u.transport;
  tls_skip_verify = u.tls_skip_verify;
}

abbrev pub update_rows : Text → (UpstreamRow → UpstreamRow) → List UpstreamRow → List UpstreamRow
update_rows name f rows = map (λ (row : UpstreamRow). if is_named name row then f row else row) rows

-- The rows that are active; `by_created` is ORDER BY created_at.
unfoldable pub list_upstreams :
    (List UpstreamRow → List UpstreamRow) → List UpstreamRow → List UpstreamRow
list_upstreams by_created rows = by_created (keep (λ (u : UpstreamRow). u.active) rows)

unfoldable pub insert_upstream :
    ℕ → UpstreamRow → List UpstreamRow → Result UpstreamError (List UpstreamRow)
unfolding ◌=ₜ◌
insert_upstream now u rows =
    if any (is_named u.name) rows
    then err name_taken
    else ok (rows ++ record u { active = true; created_at = now } ∷ [])

unfoldable pub update_upstream :
    Text → UpstreamRow → List UpstreamRow → Result UpstreamError (List UpstreamRow)
unfolding ◌=ₜ◌
update_upstream name u rows =
    if any (is_named name) rows
    then ok (update_rows name (with_columns u) rows)
    else err upstream_not_found

unfoldable pub delete_upstream : Text → List UpstreamRow → Result UpstreamError (List UpstreamRow)
unfolding ◌=ₜ◌
delete_upstream name rows =
    if any (is_named name) rows
    then ok (update_rows name (λ row. record row { active = false }) rows)
    else err upstream_not_found
