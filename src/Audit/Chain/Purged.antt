-- ===== src/Audit/Chain/Purged.antt =====
-- What `verify` says of a log after `PurgeEgress`.
use mathlib.Core.Path.{ap₂}
use shield_agent.Prelude.{
  ℕ, ◌+◌, ◌≡◌, refl, ◌≢◌, ◌∙◌, ap, true, false, some, List, [], ◌∷◌, ◌++◌, Text, codes, length,
  arith, Bool-cases, inl, inr,
}
use shield_agent.Prelude.Int.{ℤ, pos, positive}
use shield_agent.Audit.Row.{Formats, EgressLog, EgressAnchor}
use shield_agent.Audit.Store.{Db, last?, purge_egress}
use shield_agent.Audit.Store.Purging.{Numbered, Aged, Fresh, anchor_of, purge_egress-Aged}
use shield_agent.Audit.Chain.{pass_anchors, walk, verify}
use shield_agent.Audit.Chain.Linked.{
  Linked, tail_of, Unmet, walk-Linked, Linked-walk, accepted, verify_iff,
}

module _ (fm : Formats) where
  abbrev Log : Type 0
  Log = EgressLog fm

  pub Linked-append :
      (s : Text) (xs ys : List Log)
      → Linked fm s (xs ++ ys)
      → Linked fm s xs × Linked fm (tail_of fm s xs) ys
  Linked-append s [] ys l = (tt, l)
  Linked-append s (x ∷ xs) ys (p, h, l) =
      let (front, back) = Linked-append x.row_hash xs ys l in ((p, h, front), back)

  pub tail_of-last :
      (s : Text) (xs : List Log) (b : Log) → last? xs ≡ some b → tail_of fm s xs ≡ b.row_hash
  tail_of-last s [] b e = cc
  tail_of-last s (x ∷ []) b e = let same : x ≡ b = cc in ap (λ (r : Log). r.row_hash) same
  tail_of-last s (x ∷ y ∷ xs) b e = tail_of-last x.row_hash (y ∷ xs) b e

  pass_anchors_met :
      (a : EgressAnchor) (id : ℕ) (s : Text)
      → a.next_row_id ≡ pos id
      → pass_anchors id s (a ∷ []) ≡ (a.chain_hash, [])
  unfolding pass_anchors
  pass_anchors_met a id s e = rw e (ground arith)

  -- An anchor for the first row starts the chain from its hash.
  walk_met :
      (total checked : ℕ) (a : EgressAnchor) (s : Text) (n : Log) (new : List Log)
      → a.next_row_id ≡ pos n.id
      → walk fm total (a ∷ []) s checked (n ∷ new) ≡ walk fm total [] a.chain_hash checked (n ∷ new)
  unfolding walk
  walk_met total checked a s n new e = rw (pass_anchors_met a n.id s e) refl

  verify_met :
      (db : Db fm) (a : EgressAnchor) (n : Log) (new : List Log)
      → db.rows ≡ n ∷ new
      → db.anchors ≡ a ∷ []
      → a.next_row_id ≡ pos n.id
      → Linked fm a.chain_hash (n ∷ new)
      → verify fm db ≡ accepted fm 1 (length (n ∷ new))
  unfolding verify
  verify_met db a n new rows anchors e linked =
      ap₂
        (λ (anchs : List EgressAnchor) (rs : List Log).
          walk fm (length anchs) anchs (codes "") 0 rs)
        anchors rows
      ∙ walk_met 1 0 a (codes "") n new e
      ∙ walk-Linked fm 1 0 [] a.chain_hash (n ∷ new) tt linked
      ∙ ap (accepted fm 1) (zero_add (length (n ∷ new)))
    where
      zero_add : (k : ℕ) → 0 + k ≡ k
      zero_add k = omega arith

  -- A log whose first anchor belongs to a row that is gone does not verify, if its first row does not start
  -- a chain.
  pub verify-stale_anchor :
      (db : Db fm) (n : Log) (new : List Log)
      → db.rows ≡ n ∷ new
      → Unmet fm db.anchors db.rows
      → n.prev_hash ≢ codes ""
      → (verify fm db).success ≡ false
  unfolding verify
  verify-stale_anchor db n new rows stale later = elim (Bool-cases (verify fm db).success) [
    | inr refused ↦ refused
    | inl ok ↦
        let linked = Linked-walk fm (length db.anchors) 0 db.anchors (codes "") db.rows stale ok in
        absurd (later ((rw rows at linked).0))
  ]

  -- An honest table that was never purged, with its rows' times in the order of their ids around
  -- the cutoff; `b` is the last row that is old.
  pub record IsSplit (db : Db fm) (first cutoff : ℕ) (old new : List Log) (b : Log) : Type 0 where
    pub rows : db.rows ≡ old ++ new
    pub unpurged : db.anchors ≡ []
    pub verified : (verify fm db).success ≡ true
    pub numbered : Numbered fm first db.rows
    pub aged : Aged fm cutoff old
    pub fresh : Fresh fm cutoff new
    pub last : last? old ≡ some b

  module _ (db : Db fm) (days : ℤ) (now first cutoff : ℕ) (old new : List Log) (b : Log)
      (on : positive days ≡ true) (split : IsSplit db first cutoff old new b) where
    abbrev pub purged : Db fm
    purged = (purge_egress fm db days now cutoff).0

    pub Numbered-split : Numbered fm first (old ++ new)
    Numbered-split = rw split.rows at split.numbered

    pub Linked-split : Linked fm b.row_hash new
    Linked-split =
        let linked : Linked fm (codes "") (old ++ new) =
          rw split.rows at ((verify_iff fm db split.unpurged).0 split.verified) in
        rw (tail_of-last (codes "") old b split.last) at (Linked-append (codes "") old new linked).1

    pub rows_purged : purged.rows ≡ new
    rows_purged =
        (purge_egress-Aged fm db days now cutoff first old new b on split.rows Numbered-split
          split.aged split.fresh split.last).0

    pub anchors_purged : purged.anchors ≡ anchor_of fm now cutoff old new b ∷ []
    anchors_purged =
        (purge_egress-Aged fm db days now cutoff first old new b on split.rows Numbered-split
          split.aged split.fresh split.last).1
        ∙ ap (λ (anchs : List EgressAnchor). anchs ++ anchor_of fm now cutoff old new b ∷ [])
            split.unpurged

  -- A log that verifies and was never purged still verifies after a purge that leaves some row, if
  -- its rows are numbered one after the other and the purged ones, and only those, come first.
  pub verify-purge_egress :
      (db : Db fm) (days : ℤ) (now first cutoff : ℕ) (old : List Log) (n : Log) (new : List Log)
      (b : Log)
      → positive days ≡ true
      → IsSplit db first cutoff old (n ∷ new) b
      → verify fm (purge_egress fm db days now cutoff).0 ≡ accepted fm 1 (length (n ∷ new))
  verify-purge_egress db days now first cutoff old n new b on split =
      verify_met (purge_egress fm db days now cutoff).0 (anchor_of fm now cutoff old (n ∷ new) b) n
        new (rows_purged db days now first cutoff old (n ∷ new) b on split)
        (anchors_purged db days now first cutoff old (n ∷ new) b on split) refl
        (Linked-split db days now first cutoff old (n ∷ new) b on split)
