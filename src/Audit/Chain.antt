-- ===== src/Audit/Chain.antt =====
-- internal/compliance/hashchain.go. The chain's state is its `prev_hash`; `verify` is the loop over
-- the rows in the order of their ids, with the anchors left to pass and the hash that the next row
-- has to name.
pub mod Linked
pub mod Append
pub mod Commitment
pub mod Purged
pub mod Repurged
pub mod Races
use shield_agent.Prelude.{
  ℕ, zero, suc, ◌+◌, ◌==◌, Bool, true, false, Option, none, some, List, [], ◌∷◌, ◌++◌, Text, codes,
  String, ◌=ₜ◌, if◌then◌else◌, length,
}
use shield_agent.Prelude.Int.{ℤ, pos, negsuc}
use shield_agent.Audit.Row.{Formats, EgressLog, EgressAnchor}
use shield_agent.Audit.Store.{Db, last_egress_row_hash}

pub record HashChain : Type 0 where
  pub prev_hash : Text

pub data Detail : Type 0 where
  verified : ℕ → ℕ → Detail
  prev_mismatch : ℕ → Text → Text → Detail
  row_mismatch : ℕ → Text → Text → Detail

pub record VerifyResult : Type 0 where
  pub success : Bool
  pub rows_checked : ℕ
  pub anchors : ℕ
  pub bad_row_id : ℕ
  pub detail : Detail

unfoldable pub bool_str : Bool → Text
bool_str true = codes "1"
bool_str false = codes "0"

-- `strings.Join(parts, "\t")`
unfoldable pub join_tab : List Text → Text
join_tab [] = []
join_tab (p ∷ []) = p
join_tab (p ∷ q ∷ ps) = p ++ 9 ∷ join_tab (q ∷ ps)

abbrev pub is_row : ℤ → ℕ → Bool
is_row (pos n) id = n == id
is_row (negsuc _) id = false

-- The inner loop of `Verify`: the anchors whose next row is this one are passed.
unfoldable pub pass_anchors : ℕ → Text → List EgressAnchor → Text × List EgressAnchor
pass_anchors id expected [] = (expected, [])
pass_anchors id expected (a ∷ anchors) =
    let rest = pass_anchors id a.chain_hash anchors in
    if is_row a.next_row_id id then rest else (expected, a ∷ anchors)

abbrev pub fails : ℕ → ℕ → ℕ → Detail → VerifyResult
fails checked anchors id detail = record {
  success = false;
  rows_checked = checked + 1;
  anchors = anchors;
  bad_row_id = id;
  detail = detail;
}

module _ (fm : Formats) where
  abbrev Log : Type 0
  Log = EgressLog fm

  unfoldable pub parts : Text → Log → List Text
  unfolding bool_str
  parts prev_hash r =
      prev_hash
      ∷ fm.format_time r.timestamp
      ∷ r.correlation_id
      ∷ r.provider
      ∷ r.model
      ∷ r.method
      ∷ r.protocol
      ∷ r.destination
      ∷ fm.itoa r.status_code
      ∷ fm.itoa r.request_size
      ∷ fm.itoa r.response_size
      ∷ fm.format_float r.latency_ms
      ∷ r.content_class
      ∷ r.prompt_hash
      ∷ bool_str r.pii_detected
      ∷ bool_str r.pii_scrubbed
      ∷ r.policy_action
      ∷ r.policy_rule
      ∷ bool_str r.ai_generated_tag
      ∷ r.error_detail
      ∷ []

  unfoldable pub canonical_row_hash : Text → Log → Text
  unfolding join_tab parts
  canonical_row_hash prev_hash r = fm.sha256_hex (join_tab (parts prev_hash r))

  -- `NewHashChain`
  unfoldable pub new_hash_chain : Db fm → HashChain
  unfolding last_egress_row_hash
  new_hash_chain db = record { prev_hash = last_egress_row_hash fm db }

  -- The mutex makes the whole call one step.
  unfoldable pub compute_row : HashChain → Log → HashChain × Log
  compute_row h row =
      let hash = canonical_row_hash h.prev_hash row in
      (record { prev_hash = hash }, record row { prev_hash = h.prev_hash; row_hash = hash })

  unfoldable pub tail : HashChain → Text
  tail h = h.prev_hash

  -- The outer loop; `total` is the number of all anchors.
  unfoldable pub walk : ℕ → List EgressAnchor → Text → ℕ → List Log → VerifyResult
  unfolding pass_anchors
  walk total anchors expected checked [] = record {
    success = true;
    rows_checked = checked;
    anchors = total;
    bad_row_id = 0;
    detail = verified checked total;
  }
  walk total anchors expected checked (row ∷ rows) =
      let passed = pass_anchors row.id expected anchors in
      let rest = walk total passed.1 row.row_hash (checked + 1) rows in
      let recomputed = canonical_row_hash row.prev_hash row in
      if row.prev_hash =ₜ passed.0
      then (if row.row_hash =ₜ recomputed
          then rest
          else fails checked total row.id (row_mismatch row.id recomputed row.row_hash))
      else fails checked total row.id (prev_mismatch row.id passed.0 row.prev_hash)

  unfoldable pub verify : Db fm → VerifyResult
  unfolding walk
  verify db = walk (length db.anchors) db.anchors (codes "") 0 db.rows
