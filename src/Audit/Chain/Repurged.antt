-- ===== src/Audit/Chain/Repurged.antt =====
-- Where the verifier refuses an honest log: after a purge that leaves no row, and after a second
-- purge. The inner loop of `Verify` waits for the first anchor, and its row is gone.
use mathlib.Core.Path.{subst₂}
use shield_agent.Prelude.{
  ℕ, ◌+◌, ◌<◌, ◌≡◌, refl, ◌≢◌, ◌∙◌, sym, ap, true, false, some, List, [], ◌∷◌, ◌++◌, codes, length,
  All, arith,
}
use shield_agent.Prelude.Int.{ℤ, pos, negsuc, positive}
use shield_agent.Audit.Row.{Formats, EgressLog, EgressAnchor}
use shield_agent.Audit.Store.{Db, last?, purge_egress, insert_egress_log, last_egress_row_hash}
use shield_agent.Audit.Store.Purging.{
  Numbered, Numbered-append, Aged, Fresh, anchor_of, purge_egress-Aged,
}
use shield_agent.Audit.Chain.{canonical_row_hash, is_row, verify, compute_row, new_hash_chain}
use shield_agent.Audit.Chain.Linked.{Unmet}
use shield_agent.Audit.Chain.Purged.{
  IsSplit, verify-stale_anchor, rows_purged, anchors_purged, Numbered-split, Linked-split,
  tail_of-last, Linked-append,
}

module _ (fm : Formats) where
  abbrev Log : Type 0
  Log = EgressLog fm

  module _ (db : Db fm) (a : EgressAnchor) (row : Log) (rows : db.rows ≡ [])
      (anchors : db.anchors ≡ a ∷ []) (none_next : a.next_row_id ≡ negsuc 0)
      (full : a.chain_hash ≢ codes "") where
    stored : Log
    stored = record row {
      id = db.next_id;
      prev_hash = last_egress_row_hash fm db;
      row_hash = canonical_row_hash fm (last_egress_row_hash fm db) row;
    }

    last_egress_row_hash_emptied : last_egress_row_hash fm db ≡ a.chain_hash
    unfolding last_egress_row_hash
    last_egress_row_hash_emptied = ground arith

    verify_emptied :
        (verify fm
          (insert_egress_log fm db (compute_row fm (new_hash_chain fm db) row).1).0).success
        ≡ false
    unfolding insert_egress_log compute_row new_hash_chain stored
    verify_emptied =
        let one : db.rows ++ stored ∷ [] ≡ stored ∷ [] =
          ap (λ (rs : List Log). rs ++ stored ∷ []) rows in
        verify-stale_anchor fm
          (record db { rows = db.rows ++ stored ∷ []; next_id = db.next_id + 1 }) stored [] one
          (subst₂ (λ (anchs : List EgressAnchor) (rs : List Log). Unmet fm anchs rs) (sym anchors)
            (sym one) (rw none_next refl, tt))
          (λ e. full (sym last_egress_row_hash_emptied ∙ e))

  -- A log that verifies and was never purged does not verify after a purge of all its rows and the
  -- next row, which a chain that was built anew from it writes, unless the last purged hash is the
  -- empty text.
  pub verify-insert_purged :
      (db : Db fm) (days : ℤ) (now first cutoff : ℕ) (old : List Log) (b row : Log)
      → positive days ≡ true
      → IsSplit fm db first cutoff old [] b
      → b.row_hash ≢ codes ""
      → (verify fm
          (insert_egress_log fm
            (purge_egress fm db days now cutoff).0
            (compute_row fm
              (new_hash_chain fm (purge_egress fm db days now cutoff).0)
              row).1).0).success
        ≡ false
  verify-insert_purged db days now first cutoff old b row on split full =
      verify_emptied (purge_egress fm db days now cutoff).0 (anchor_of fm now cutoff old [] b) row
        (rows_purged fm db days now first cutoff old [] b on split)
        (anchors_purged fm db days now first cutoff old [] b on split) refl full

  Unmet-later :
      (id first : ℕ) (rows : List Log)
      → Numbered fm first rows
      → id < first
      → All (λ (row : Log). is_row (pos id) row.id ≡ false) rows
  Unmet-later id first [] h lt = tt
  Unmet-later id first (row ∷ rows) (here, h) lt =
      (ground arith, Unmet-later id (first + 1) rows h (omega arith))

  -- A log that verifies and was never purged does not verify after two purges of its oldest rows
  -- that each leave some row, unless the last hash of the second purge is the empty text.
  pub verify-purge_egress_twice :
      (db : Db fm) (days : ℤ) (now now' first cutoff cutoff' : ℕ) (old : List Log) (m : Log)
      (mid : List Log) (n : Log) (new : List Log) (b b' : Log)
      → positive days ≡ true
      → IsSplit fm db first cutoff old (m ∷ mid ++ n ∷ new) b
      → Aged fm cutoff' (m ∷ mid)
      → Fresh fm cutoff' (n ∷ new)
      → last? (m ∷ mid) ≡ some b'
      → b'.row_hash ≢ codes ""
      → (verify fm
          (purge_egress fm (purge_egress fm db days now cutoff).0 days now' cutoff').0).success
        ≡ false
  verify-purge_egress_twice db days now now' first cutoff cutoff' old m mid n new b b' on split aged
        fresh last full =
      let db1 = (purge_egress fm db days now cutoff).0 in
      let rows1 = rows_purged fm db days now first cutoff old (m ∷ mid ++ n ∷ new) b on split in
      let anchors1 =
        anchors_purged fm db days now first cutoff old (m ∷ mid ++ n ∷ new) b on split in
      let numbered : Numbered fm (first + length old) (m ∷ mid ++ n ∷ new) =
        (Numbered-append fm first old (m ∷ mid ++ n ∷ new)
          (Numbered-split fm db days now first cutoff old (m ∷ mid ++ n ∷ new) b on split)).1 in
      let (rows2, anchors2, _) =
        purge_egress-Aged fm db1 days now' cutoff' (first + length old) (m ∷ mid) (n ∷ new) b' on
          rows1 numbered aged fresh last in
      let linked = Linked-split fm db days now first cutoff old (m ∷ mid ++ n ∷ new) b on split in
      let later = Numbered-append fm (first + length old) (m ∷ mid) (n ∷ new) numbered in
      let anchors : (purge_egress fm db1 days now' cutoff').0.anchors
          ≡ anchor_of fm now cutoff old (m ∷ mid ++ n ∷ new) b
            ∷ anchor_of fm now' cutoff' (m ∷ mid) (n ∷ new) b'
            ∷ [] =
        anchors2
        ∙ ap
            (λ (anchs : List EgressAnchor).
              anchs ++ anchor_of fm now' cutoff' (m ∷ mid) (n ∷ new) b' ∷ [])
            anchors1 in
      verify-stale_anchor fm (purge_egress fm db1 days now' cutoff').0 n new rows2
        (subst₂ (λ (anchs : List EgressAnchor) (rs : List Log). Unmet fm anchs rs) (sym anchors)
          (sym rows2)
          (Unmet-later m.id (first + length old + length (m ∷ mid)) (n ∷ new) later.1
            (omega (arith, numbered.0))))
        (λ e. full (
          sym (tail_of-last fm b.row_hash (m ∷ mid) b' last)
          ∙ sym ((Linked-append fm b.row_hash (m ∷ mid) (n ∷ new) linked).1).0
          ∙ e))
