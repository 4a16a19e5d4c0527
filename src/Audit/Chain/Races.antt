-- ===== src/Audit/Chain/Races.antt =====
-- Rows whose computing and writing are apart: two requests between them, or a write that fails.
use shield_agent.Prelude.{◌≡◌, ◌≢◌, false, Text, codes, =ₜ_iff, =ₜ_refl, arith}
use shield_agent.Audit.Row.{Formats, EgressLog}
use shield_agent.Audit.Store.{Db, empty_db, insert_egress_log}
use shield_agent.Audit.Chain.{canonical_row_hash, compute_row, verify}

module _ (fm : Formats) where
  abbrev Log : Type 0
  Log = EgressLog fm

  abbrev insert : Db fm → Log → Db fm
  insert db row = (insert_egress_log fm db row).0

  abbrev first_hash : Log → Text
  first_hash a = canonical_row_hash fm (codes "") a

  -- Two requests compute their rows in one order and hand them to the writer in the other.
  unfoldable pub swapped : Log → Log → Db fm
  unfolding compute_row insert_egress_log
  swapped a b =
      let (h, first) = compute_row fm (record { prev_hash = codes "" }) a in
      let second = (compute_row fm h b).1 in insert (insert (empty_db fm) second) first

  -- Three rows are computed, and the write of the middle one fails.
  unfoldable pub dropped : Log → Log → Log → Db fm
  unfolding compute_row insert_egress_log
  dropped a b c =
      let (h, first) = compute_row fm (record { prev_hash = codes "" }) a in
      let (h', second) = compute_row fm h b in
      let third = (compute_row fm h' c).1 in insert (insert (empty_db fm) first) third

  -- The verifier refuses a log of two rows that were inserted in the other order than they were
  -- hashed, unless the first hash is the empty text.
  pub verify-swapped :
      (a b : Log) → first_hash a ≢ codes "" → (verify fm (swapped a b)).success ≡ false
  unfolding swapped verify
  verify-swapped a b full = ground (arith, =ₜ_iff (first_hash a) (codes ""))

  -- The verifier refuses a log of three rows that lost the second, unless the lost row's hash is
  -- that of the row before it.
  pub verify-dropped :
      (a b c : Log)
      → canonical_row_hash fm (first_hash a) b ≢ first_hash a
      → (verify fm (dropped a b c)).success ≡ false
  unfolding dropped verify
  verify-dropped a b c apart = ground (
    arith,
    =ₜ_iff (canonical_row_hash fm (first_hash a) b) (first_hash a),
    =ₜ_refl (first_hash a),
  )
