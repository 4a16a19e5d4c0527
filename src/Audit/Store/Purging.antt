-- ===== src/Audit/Store/Purging.antt =====
-- A purge of rows whose times are in order removes a prefix of the table.
use mathlib.Core.Path.{ap₂}
use mathlib.Core.List.{append-nil}
use native.Mathlib.Nat.{add-zero}
use shield_agent.Prelude.{
  ℕ, suc, ◌+◌, ◌≤◌, ◌<◌, ◌≡◌, refl, ◌∙◌, ap, true, not, some, List, [], ◌∷◌, ◌++◌, keep,
  keep-append, count_if, length, All, arith,
}
use shield_agent.Prelude.Int.{ℤ, pos, negsuc, positive}
use shield_agent.Audit.Row.{Formats, EgressLog, EgressAnchor}
use shield_agent.Audit.Store.{Db, last?, is_old, next_row_after, purge_egress, purge_at}

module _ (fm : Formats) where
  abbrev Log : Type 0
  Log = EgressLog fm

  -- The ids count up from `first`.
  abbrev pub Numbered : ℕ → List Log → Type 0
  Numbered first [] = Unit
  Numbered first (row ∷ rows) = (row.id ≡ first) × Numbered (first + 1) rows

  abbrev pub Aged : ℕ → List Log → Type 0
  Aged cutoff = All (λ (row : Log). row.timestamp < cutoff)

  abbrev pub Fresh : ℕ → List Log → Type 0
  Fresh cutoff = All (λ (row : Log). cutoff ≤ row.timestamp)

  pub Numbered-append :
      (first : ℕ) (xs ys : List Log)
      → Numbered first (xs ++ ys)
      → Numbered first xs × Numbered (first + length xs) ys
  Numbered-append first [] ys h = (tt, rw add-zero h)
  Numbered-append first (x ∷ xs) ys (here, h) =
      let (front, back) = Numbered-append (first + 1) xs ys h in
      ((here, front), rw (shift first (length xs)) at back)
    where
      shift : (a b : ℕ) → a + 1 + b ≡ a + suc b
      shift a b = omega arith

  last-id :
      (first : ℕ) (xs : List Log) (b : Log)
      → Numbered first xs
      → last? xs ≡ some b
      → suc b.id ≡ first + length xs
  last-id first [] b h e = cc
  last-id first (x ∷ []) b (here, _) e =
      let same : x ≡ b = cc in omega (arith, ap (λ (r : Log). r.id) same)
  last-id first (x ∷ y ∷ xs) b (here, h) e = omega (arith, last-id (first + 1) (y ∷ xs) b h e)

  keep-Aged : (cutoff : ℕ) (xs : List Log) → Aged cutoff xs → keep (is_old fm cutoff) xs ≡ xs
  keep-Aged cutoff [] h = refl
  keep-Aged cutoff (x ∷ xs) (here, h) = ground (arith, keep-Aged cutoff xs h)

  keep-Fresh : (cutoff : ℕ) (xs : List Log) → Fresh cutoff xs → keep (is_old fm cutoff) xs ≡ []
  keep-Fresh cutoff [] h = refl
  keep-Fresh cutoff (x ∷ xs) (here, h) = ground (arith, keep-Fresh cutoff xs h)

  drop-Aged :
      (cutoff : ℕ) (xs : List Log) → Aged cutoff xs → keep (λ r. not (is_old fm cutoff r)) xs ≡ []
  drop-Aged cutoff [] h = refl
  drop-Aged cutoff (x ∷ xs) (here, h) = ground (arith, drop-Aged cutoff xs h)

  drop-Fresh :
      (cutoff : ℕ) (xs : List Log) → Fresh cutoff xs → keep (λ r. not (is_old fm cutoff r)) xs ≡ xs
  drop-Fresh cutoff [] h = refl
  drop-Fresh cutoff (x ∷ xs) (here, h) = ground (arith, drop-Fresh cutoff xs h)

  -- The id of the first row, or -1.
  abbrev pub head_id : List Log → ℤ
  head_id [] = negsuc 0
  head_id (row ∷ _) = pos row.id

  next_row_after-Numbered :
      (first last_id : ℕ) (old new : List Log)
      → Numbered first (old ++ new)
      → suc last_id ≡ first + length old
      → next_row_after fm last_id (old ++ new) ≡ head_id new
  next_row_after-Numbered first last_id [] [] h e = refl
  next_row_after-Numbered first last_id [] (n ∷ new) (here, h) e = ground arith
  next_row_after-Numbered first last_id (o ∷ old) new (here, h) e =
      ground (arith, next_row_after-Numbered (first + 1) last_id old new h (omega arith))

  -- The anchor of a purge that removes `old`, up to `b`, and leaves `new`.
  abbrev pub anchor_of : ℕ → ℕ → List Log → List Log → Log → EgressAnchor
  anchor_of now cutoff old new b = record {
    anchor_timestamp = now;
    purged_up_to_id = b.id;
    purged_count = count_if (is_old fm cutoff) (old ++ new);
    chain_hash = b.row_hash;
    next_row_id = head_id new;
  }

  -- The purge of an aged prefix leaves the rest and one more anchor, which names the prefix's last
  -- hash and the first row that is left.
  pub purge_egress-Aged :
      (db : Db fm) (days : ℤ) (now cutoff first : ℕ) (old new : List Log) (b : Log)
      → positive days ≡ true
      → db.rows ≡ old ++ new
      → Numbered first (old ++ new)
      → Aged cutoff old
      → Fresh cutoff new
      → last? old ≡ some b
      → ((purge_egress fm db days now cutoff).0.rows ≡ new)
        × ((purge_egress fm db days now cutoff).0.anchors
            ≡ db.anchors ++ anchor_of now cutoff old new b ∷ [])
        × ((purge_egress fm db days now cutoff).0.next_id ≡ db.next_id)
  unfolding purge_egress
  purge_egress-Aged db days now cutoff first old new b on rows numbered aged fresh last =
      let kept : keep (is_old fm cutoff) db.rows ≡ old =
        ap (keep (is_old fm cutoff)) rows
        ∙ keep-append (is_old fm cutoff) old new
        ∙ ap₂ (λ (xs ys : List Log). xs ++ ys) (keep-Aged cutoff old aged)
            (keep-Fresh cutoff new fresh)
        ∙ append-nil old in
      let left : keep (λ r. not (is_old fm cutoff r)) db.rows ≡ new =
        ap (keep (λ r. not (is_old fm cutoff r))) rows
        ∙ keep-append (λ r. not (is_old fm cutoff r)) old new
        ∙ ap₂ (λ (xs ys : List Log). xs ++ ys) (drop-Aged cutoff old aged)
            (drop-Fresh cutoff new fresh) in
      let next : next_row_after fm b.id db.rows ≡ head_id new =
        ap (next_row_after fm b.id) rows
        ∙ next_row_after-Numbered first b.id old new numbered
            (last-id first old b (Numbered-append first old new numbered).0 last) in
      let found : last? (keep (is_old fm cutoff) db.rows) ≡ some b = ap last? kept ∙ last in
      let run : purge_egress fm db days now cutoff ≡ purge_at fm db now cutoff (some b) =
        rw (on, found) refl in
      (
        ap (λ (p : Db fm × ℕ). p.0.rows) run ∙ left,
        ap (λ (p : Db fm × ℕ). p.0.anchors) run
            ∙ ap₂ (λ (n : ℕ) (z : ℤ). db.anchors ++ anchor n z ∷ [])
                (ap (count_if (is_old fm cutoff)) rows) next,
        ap (λ (p : Db fm × ℕ). p.0.next_id) run,
      )
    where
      anchor : ℕ → ℤ → EgressAnchor
      anchor n z = record {
        anchor_timestamp = now;
        purged_up_to_id = b.id;
        purged_count = n;
        chain_hash = b.row_hash;
        next_row_id = z;
      }
