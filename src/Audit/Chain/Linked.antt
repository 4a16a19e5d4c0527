-- ===== src/Audit/Chain/Linked.antt =====
-- Which logs `verify` accepts, where no anchor is left to pass.
use native.Mathlib.Nat.{add-zero}
use shield_agent.Prelude.{
  ℕ, suc, ◌+◌, ◌≡◌, refl, ◌↔◌, ◌∙◌, sym, ap, true, false, List, [], ◌∷◌, Text, codes, =ₜ_iff,
  length, All, arith,
}
use shield_agent.Audit.Row.{Formats, EgressLog, EgressAnchor}
use shield_agent.Audit.Store.{Db}
use shield_agent.Audit.Chain.{
  VerifyResult, verified, canonical_row_hash, is_row, pass_anchors, walk, verify,
}

module _ (fm : Formats) where
  abbrev Log : Type 0
  Log = EgressLog fm

  -- Each row names the hash before it, and its own hash is that of its fields.
  abbrev pub Linked : Text → List Log → Type 0
  Linked start [] = Unit
  Linked start (row ∷ rows) =
      (row.prev_hash ≡ start)
      × (row.row_hash ≡ canonical_row_hash fm start row)
      × Linked row.row_hash rows

  -- The hash that the next row has to name.
  abbrev pub tail_of : Text → List Log → Text
  tail_of start [] = start
  tail_of start (row ∷ rows) = tail_of row.row_hash rows

  -- The first anchor that is left belongs to none of the rows.
  abbrev pub Unmet : List EgressAnchor → List Log → Type 0
  Unmet [] rows = Unit
  Unmet (a ∷ anchors) rows = All (λ (row : Log). is_row a.next_row_id row.id ≡ false) rows

  pass_anchors-Unmet :
      (anchors : List EgressAnchor) (row : Log) (rows : List Log) (start : Text)
      → Unmet anchors (row ∷ rows)
      → (pass_anchors row.id start anchors ≡ (start, anchors)) × Unmet anchors rows
  unfolding pass_anchors
  pass_anchors-Unmet [] row rows start u = (refl, tt)
  pass_anchors-Unmet (a ∷ anchors) row rows start (other, u) = (rw other, u)

  module _ (total checked : ℕ) (anchors : List EgressAnchor) (start : Text) (row : Log)
      (rows : List Log) where
    walk_good :
        row.prev_hash ≡ (pass_anchors row.id start anchors).0
        → row.row_hash ≡ canonical_row_hash fm row.prev_hash row
        → walk fm total anchors start checked (row ∷ rows)
          ≡ walk fm total (pass_anchors row.id start anchors).1 row.row_hash (checked + 1) rows
    unfolding walk
    walk_good prev hash = ground (
      arith,
      =ₜ_iff row.prev_hash (pass_anchors row.id start anchors).0,
      =ₜ_iff row.row_hash (canonical_row_hash fm row.prev_hash row),
    )

    pub walk_inversion :
        (walk fm total anchors start checked (row ∷ rows)).success ≡ true
        → (row.prev_hash ≡ (pass_anchors row.id start anchors).0)
          × (row.row_hash ≡ canonical_row_hash fm row.prev_hash row)
          × ((walk fm total
                (pass_anchors row.id start anchors).1
                row.row_hash
                (checked + 1)
                rows).success
              ≡ true)
    unfolding walk
    walk_inversion h = ground (
      arith,
      =ₜ_iff row.prev_hash (pass_anchors row.id start anchors).0,
      =ₜ_iff row.row_hash (canonical_row_hash fm row.prev_hash row),
    )

  abbrev pub accepted : ℕ → ℕ → VerifyResult
  accepted total checked = record {
    success = true;
    rows_checked = checked;
    anchors = total;
    bad_row_id = 0;
    detail = verified checked total;
  }

  pub walk-Linked :
      (total checked : ℕ) (anchors : List EgressAnchor) (start : Text) (rows : List Log)
      → Unmet anchors rows
      → Linked start rows
      → walk fm total anchors start checked rows ≡ accepted total (checked + length rows)
  unfolding walk
  walk-Linked total checked anchors start [] u l = rw add-zero
  walk-Linked total checked anchors start (row ∷ rows) u (prev, hash, l) =
      let (passed, later) = pass_anchors-Unmet anchors row rows start u in
      walk_good total checked anchors start row rows (prev ∙ sym (ap (λ p. p.0) passed))
        (hash ∙ ap (λ t. canonical_row_hash fm t row) (sym prev))
      ∙ ap (λ p. walk fm total p.1 row.row_hash (checked + 1) rows) passed
      ∙ walk-Linked total (checked + 1) anchors row.row_hash rows later l
      ∙ ap (accepted total) (shift checked (length rows))
    where
      shift : (a b : ℕ) → a + 1 + b ≡ a + suc b
      shift a b = omega arith

  pub Linked-walk :
      (total checked : ℕ) (anchors : List EgressAnchor) (start : Text) (rows : List Log)
      → Unmet anchors rows
      → (walk fm total anchors start checked rows).success ≡ true
      → Linked start rows
  Linked-walk total checked anchors start [] u h = tt
  Linked-walk total checked anchors start (row ∷ rows) u h =
      let (passed, later) = pass_anchors-Unmet anchors row rows start u in
      let (prev, hash, rest) = walk_inversion total checked anchors start row rows h in
      let prev' : row.prev_hash ≡ start = prev ∙ ap (λ p. p.0) passed in
      (
        prev',
        hash ∙ ap (λ t. canonical_row_hash fm t row) prev',
        Linked-walk total (checked + 1) anchors row.row_hash rows later (rw passed at rest),
      )

  -- With no anchors, the verifier accepts a log exactly if every row names the hash of the row
  -- before it, the first one the empty text, and carries the hash of its own fields.
  pub verify_iff :
      (db : Db fm) → db.anchors ≡ [] → ((verify fm db).success ≡ true) ↔ Linked (codes "") db.rows
  unfolding verify
  verify_iff db none_left = rw none_left (
    λ h. Linked-walk 0 0 [] (codes "") db.rows tt h,
    λ l. ap (λ (r : VerifyResult). r.success) (walk-Linked 0 0 [] (codes "") db.rows tt l),
  )
