-- ===== src/Audit/Digest.antt =====
-- internal/compliance/digest.go. The file is its bytes. `marshal` and `unmarshal` are those of
-- package encoding/json on a `DigestEntry`; the tail is empty where the writer has no hash chain.
-- Failures of the database and of the disk are not in this model.
pub mod RoundTrip
mod Examples
use shield_agent.Prelude.{
  ℕ, ◌==◌, Bool, true, false, Option, none, some, List, [], ◌∷◌, ◌++◌, Text, codes, is_empty,
  if◌then◌else◌, length,
}
use shield_agent.Audit.Row.{Formats}
use shield_agent.Audit.Store.{Db, count_egress_logs}
use shield_agent.Audit.Chain.{HashChain}

pub record DigestEntry : Type 0 where
  pub timestamp : ℕ
  pub tail : Text
  pub row_count : ℕ
  pub anchors : ℕ

abbrev pub tail_text : Option HashChain → Text
tail_text none = []
tail_text (some h) = h.prev_hash

unfoldable pub digest_entry : (fm : Formats) → Db fm → Option HashChain → ℕ → DigestEntry
unfolding count_egress_logs
digest_entry fm db hashes now = record {
  timestamp = now;
  tail = tail_text hashes;
  row_count = count_egress_logs fm db;
  anchors = length db.anchors;
}

-- `splitLines` from a byte on, with the bytes of the line so far: what follows the last line feed is
-- a line if it is not empty.
unfoldable pub split_from : Text → Text → List Text
unfolding is_empty
split_from line [] = if is_empty line then [] else line ∷ []
split_from line (c ∷ b) = elim (c == 10) [
  | true ↦ line ∷ split_from [] b
  | false ↦ split_from (line ++ c ∷ []) b
]

unfoldable pub split_lines : Text → List Text
unfolding split_from
split_lines b = split_from [] b

module _ (marshal : DigestEntry → Text) (unmarshal : Text → Option DigestEntry) where
  -- `writeOnce`, of what the file holds and the entry that it makes
  unfoldable pub write_once : Text → DigestEntry → Text
  write_once file entry = file ++ (marshal entry ++ 10 ∷ [])

  -- `none` is an error at some line.
  unfoldable pub read_entries : List Text → Option (List DigestEntry)
  unfolding is_empty
  read_entries [] = some []
  read_entries (line ∷ lines) =
      let rest = read_entries lines in
      if is_empty line then rest else elim (unmarshal line) [
        | none ↦ none
        | some entry ↦ elim rest [ none ↦ none | some entries ↦ some (entry ∷ entries) ]
      ]

  -- `ReadDigestFile`, of a file that can be read
  unfoldable pub read_digest_file : Text → Option (List DigestEntry)
  unfolding read_entries split_lines
  read_digest_file file = read_entries (split_lines file)
