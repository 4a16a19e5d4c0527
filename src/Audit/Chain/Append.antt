-- ===== src/Audit/Chain/Append.antt =====
-- A log that is only written by `ComputeRow` and `InsertEgressLog`, one row at a time.
use shield_agent.Prelude.{
  ◌+◌, ◌≡◌, refl, ◌∙◌, sym, ap, some, List, [], ◌∷◌, ◌++◌, Text, codes, length, length-append,
  arith,
}
use shield_agent.Audit.Row.{Formats, EgressLog}
use shield_agent.Audit.Store.{Db, empty_db, insert_egress_log, last_egress_row_hash, last?}
use shield_agent.Audit.Chain.{HashChain, canonical_row_hash, compute_row, new_hash_chain, verify}
use shield_agent.Audit.Chain.Linked.{Linked, tail_of, walk-Linked, accepted}

module _ (fm : Formats) where
  abbrev Log : Type 0
  Log = EgressLog fm

  pub record Audit : Type 0 where
    pub db : Db fm
    pub chain : HashChain

  -- A fresh database and the chain that starts from it.
  abbrev pub start : Audit
  start = record { db = empty_db fm; chain = record { prev_hash = codes "" } }

  -- One request: its row is computed and then written.
  unfoldable pub append : Audit → Log → Audit
  unfolding compute_row insert_egress_log
  append a row =
      let (chain, hashed) = compute_row fm a.chain row in
      record { db = (insert_egress_log fm a.db hashed).0; chain = chain }

  unfoldable pub append_all : Audit → List Log → Audit
  unfolding append
  append_all a [] = a
  append_all a (row ∷ rows) = append_all (append a row) rows

  pub record IsHonest (a : Audit) : Type 0 where
    pub linked : Linked fm (codes "") a.db.rows
    pub tail : a.chain.prev_hash ≡ tail_of fm (codes "") a.db.rows
    pub unpurged : a.db.anchors ≡ []

  Linked-concat :
      (s : Text) (rows : List Log) (row : Log)
      → Linked fm s rows
      → row.prev_hash ≡ tail_of fm s rows
      → row.row_hash ≡ canonical_row_hash fm (tail_of fm s rows) row
      → Linked fm s (rows ++ row ∷ []) × (tail_of fm s (rows ++ row ∷ []) ≡ row.row_hash)
  Linked-concat s [] row l p h = ((p, h, tt), refl)
  Linked-concat s (r ∷ rows) row (p', h', l) p h =
      let (l', t) = Linked-concat r.row_hash rows row l p h in ((p', h', l'), t)

  append-IsHonest : (a : Audit) (row : Log) → IsHonest a → IsHonest (append a row)
  unfolding append canonical_row_hash
  append-IsHonest a row h =
      let stored = record row {
        id = a.db.next_id;
        prev_hash = a.chain.prev_hash;
        row_hash = canonical_row_hash fm a.chain.prev_hash row;
      } in
      let (linked, tail) =
        Linked-concat (codes "") a.db.rows stored h.linked h.tail
          (ap (λ t. canonical_row_hash fm t row) h.tail) in
      record { linked = linked; tail = sym tail; unpurged = h.unpurged }

  append_all-IsHonest : (a : Audit) (rows : List Log) → IsHonest a → IsHonest (append_all a rows)
  unfolding append_all
  append_all-IsHonest a [] h = h
  append_all-IsHonest a (row ∷ rows) h =
      append_all-IsHonest (append a row) rows (append-IsHonest a row h)

  length-append_all :
      (a : Audit) (rows : List Log)
      → length (append_all a rows).db.rows ≡ length a.db.rows + length rows
  unfolding append_all
  length-append_all a [] = omega arith
  length-append_all a (row ∷ rows) =
      omega (arith, length-append_all (append a row) rows, length-one)
    where
      length-one : length (append a row).db.rows ≡ length a.db.rows + 1
      length-one = omega (
        arith,
        length-append a.db.rows (
            record row {
              id = a.db.next_id;
              prev_hash = a.chain.prev_hash;
              row_hash = canonical_row_hash fm a.chain.prev_hash row;
            }
            ∷ []),
      )

  -- Whatever rows are written, the verifier accepts the whole log and counts every row.
  pub verify-append_all :
      (rows : List Log) → verify fm (append_all start rows).db ≡ accepted fm 0 (length rows)
  unfolding verify
  verify-append_all rows =
      let h =
        append_all-IsHonest start rows (record { linked = tt; tail = refl; unpurged = refl }) in
      rw h.unpurged (
        walk-Linked fm 0 0 [] (codes "") (append_all start rows).db.rows tt h.linked
        ∙ ap (accepted fm 0) (omega (arith, length-append_all start rows)))

  last-tail :
      (s : Text) (row : Log) (rows : List Log)
      → (r : Log) × (last? (row ∷ rows) ≡ some r) × (r.row_hash ≡ tail_of fm s (row ∷ rows))
  last-tail s row [] = (row, refl, refl)
  last-tail s row (r ∷ rows) = last-tail row.row_hash r rows

  last_egress_row_hash-tail_of :
      (db : Db fm) (rows : List Log)
      → db.rows ≡ rows
      → db.anchors ≡ []
      → last_egress_row_hash fm db ≡ tail_of fm (codes "") rows
  unfolding last_egress_row_hash
  last_egress_row_hash-tail_of db [] e none_left = ground arith
  last_egress_row_hash-tail_of db (row ∷ rows) e none_left =
      let (r, found, hash) = last-tail (codes "") row rows in ground arith

  -- Whatever rows are written, a chain that is built anew from the database is the one that wrote
  -- them.
  pub new_hash_chain-append_all :
      (rows : List Log)
      → new_hash_chain fm (append_all start rows).db ≡ (append_all start rows).chain
  unfolding new_hash_chain
  new_hash_chain-append_all rows =
      let h =
        append_all-IsHonest start rows (record { linked = tt; tail = refl; unpurged = refl }) in
      ap (λ (t : Text). let c : HashChain = record { prev_hash = t } in c)
        (last_egress_row_hash-tail_of (append_all start rows).db (append_all start rows).db.rows
            refl h.unpurged
          ∙ sym h.tail)
