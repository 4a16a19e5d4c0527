-- ===== src/Reputation/Provider/Saved.antt =====
-- What saving scores makes of the table, internal/reputation/store.go.
use shield_agent.Prelude.{
  ◌≡◌, ap, refl, sym, ◌∙◌, ◌⊎◌, inl, inr, Bool, true, false, Option, none, some, List, [], ◌∷◌,
  Text, ◌=ₜ◌, =ₜ_iff, arith, if◌then◌else◌, Bool-cases, Option-cases,
}
use mathlib.Core.Path.{subst}
use shield_agent.Prelude.Result.{Result, ok, err}
use mathlib.Core.List.{Memᴰ}
use shield_agent.Reputation.{Floats, Score}
use shield_agent.Reputation.Cached.{last_of}
use shield_agent.Reputation.Provider.{
  SaveError, commit_tx, Tx, Formats, as_read, save_row, save_rows, save_all, load_one,
}

module _ (fl : Floats) where
  -- The table has at most one row for an agent.
  abbrev pub OneEach : List (Score fl) → Type 0
  OneEach rows = (r : Score fl) → Memᴰ r rows → load_one fl rows r.agent_id_hash ≡ some r

  -- The scores that an agent has after some are saved over a table
  abbrev pub newest : Formats fl → Option (Score fl) → Option (Score fl) → Option (Score fl)
  newest f none old = old
  newest f (some s) old = some (as_read fl f s)

  load_one-save_row :
      (row : Score fl) (rows : List (Score fl)) (agent : Text)
      → load_one fl (save_row fl row rows) agent
        ≡ (if row.agent_id_hash =ₜ agent then some row else load_one fl rows agent)
  unfolding load_one save_row
  load_one-save_row row [] agent = refl
  load_one-save_row row (r ∷ rows) agent = ground (
    arith,
    load_one-save_row row rows agent,
    =ₜ_iff r.agent_id_hash row.agent_id_hash,
    =ₜ_iff row.agent_id_hash agent,
    =ₜ_iff r.agent_id_hash agent,
  )

  swapped : (a b : Text) → a =ₜ b ≡ false → b =ₜ a ≡ false
  swapped a b h = ground (arith, =ₜ_iff a b, =ₜ_iff b a)

  abbrev Kept : Score fl → Score fl → List (Score fl) → Type 0
  Kept row r rows = (r ≡ row) ⊎ (Memᴰ r rows × (row.agent_id_hash =ₜ r.agent_id_hash ≡ false))

  later : (row r r' : Score fl) (rows : List (Score fl)) → Kept row r rows → Kept row r (r' ∷ rows)
  later row r r' rows (inl same) = inl same
  later row r r' rows (inr (at, other)) = inr (Memᴰ.tail at, other)

  first_or_later :
      (row r r' : Score fl) (rows : List (Score fl))
      → r'.agent_id_hash =ₜ row.agent_id_hash ≡ false
      → (Memᴰ r (save_row fl row rows) → Kept row r rows)
      → Memᴰ r (r' ∷ save_row fl row rows)
      → Kept row r (r' ∷ rows)
  first_or_later row r r' rows kept rest (Memᴰ.head same) = inr (
    Memᴰ.head same,
    ap (λ (x : Score fl). row.agent_id_hash =ₜ x.agent_id_hash) same
        ∙ swapped r'.agent_id_hash row.agent_id_hash kept,
  )
  first_or_later row r r' rows kept rest (Memᴰ.tail at) = later row r r' rows (rest at)

  -- A member of a table after a row is saved is that row, or was there with another id.
  Memᴰ-save_row :
      (row r : Score fl) (rows : List (Score fl)) → Memᴰ r (save_row fl row rows) → Kept row r rows
  unfolding save_row
  Memᴰ-save_row row r [] (Memᴰ.head same) = inl same
  Memᴰ-save_row row r [] (Memᴰ.tail at) = elim at [ ]
  Memᴰ-save_row row r (r' ∷ rows) m = elim (Bool-cases (r'.agent_id_hash =ₜ row.agent_id_hash)) [
    | inl gone ↦ later row r r' rows (Memᴰ-save_row row r rows (rw gone at m))
    | inr kept ↦ first_or_later row r r' rows kept (Memᴰ-save_row row r rows) (rw kept at m)
  ]

  save_row-OneEach :
      (row : Score fl) (rows : List (Score fl)) → OneEach rows → OneEach (save_row fl row rows)
  save_row-OneEach row rows one r m =
      load_one-save_row row rows r.agent_id_hash ∙ elim (Memᴰ-save_row row r rows m) [
        | inl same ↦
            subst
              (λ (x : Score fl).
                (if row.agent_id_hash =ₜ x.agent_id_hash
                  then some row
                  else load_one fl rows x.agent_id_hash)
                ≡ some x)
              (sym same) (ground (arith, =ₜ_iff row.agent_id_hash row.agent_id_hash))
        | inr (at, other) ↦ ground (arith, one r at)
      ]

  -- One row for an agent, and the last score of each that is scored
  abbrev pub Saved :
      Formats fl → List (Score fl) → List (Score fl) → Result SaveError (List (Score fl)) → Type 0
  Saved f rows scores (err _) = Unit {0}
  Saved f rows scores (ok saved) =
      OneEach saved
      × ((agent : Text)
          → load_one fl saved agent ≡ newest f (last_of fl agent scores) (load_one fl rows agent))

  newest-last_of :
      (f : Formats fl) (s : Score fl) (scores : List (Score fl)) (agent : Text)
      (old : Option (Score fl))
      → newest f
          (last_of fl agent scores)
          (if s.agent_id_hash =ₜ agent then some (as_read fl f s) else old)
        ≡ newest f (last_of fl agent (s ∷ scores)) old
  newest-last_of f s scores agent old = elim (Option-cases (last_of fl agent scores)) [
    | inr (t, later) ↦ rw later refl
    | inl unscored ↦ rw unscored (ground arith)
  ]

  add-Saved :
      (f : Formats fl) (rows : List (Score fl)) (s : Score fl) (scores : List (Score fl))
      (r : Result SaveError (List (Score fl)))
      → Saved f (save_row fl (as_read fl f s) rows) scores r
      → Saved f rows (s ∷ scores) r
  unfolding as_read
  add-Saved f rows s scores (err _) h = tt
  add-Saved f rows s scores (ok saved) (one, h) = (
    one,
    λ agent.
        h agent
        ∙ ap (newest f (last_of fl agent scores)) (load_one-save_row (as_read fl f s) rows agent)
        ∙ newest-last_of f s scores agent (load_one fl rows agent),
  )

  save_rows-Saved :
      (f : Formats fl) (tx : Tx fl) (rows scores : List (Score fl))
      → OneEach rows
      → Saved f rows scores (save_rows fl f tx rows scores)
  unfolding save_rows
  save_rows-Saved f tx rows [] one = (one, λ agent. refl)
  save_rows-Saved f tx rows (s ∷ scores) one = elim (Bool-cases (tx.inserts s)) [
    | inr failed ↦ rw failed tt
    | inl inserted ↦
        let row = as_read fl f s in
        rw inserted (
          add-Saved f rows s scores (save_rows fl f tx (save_row fl row rows) scores)
            (save_rows-Saved f tx (save_row fl row rows) scores (save_row-OneEach row rows one)))
  ]

  commit-Saved :
      (f : Formats fl) (rows scores : List (Score fl)) (commits : Bool)
      (r : Result SaveError (List (Score fl)))
      → Saved f rows scores r
      → Saved f rows scores
          (elim r [ err e ↦ err e | ok saved ↦ if commits then ok saved else err commit_tx ])
  commit-Saved f rows scores commits (err _) h = tt
  commit-Saved f rows scores true (ok saved) h = h
  commit-Saved f rows scores false (ok saved) h = tt

  pub save_all-Saved :
      (f : Formats fl) (tx : Tx fl) (rows scores : List (Score fl))
      → OneEach rows
      → Saved f rows scores (save_all fl f tx rows scores)
  unfolding save_all
  save_all-Saved f tx rows scores one = elim (Bool-cases tx.begins) [
    | inr failed ↦ rw failed tt
    | inl began ↦ rw began (
        commit-Saved f rows scores tx.commits (save_rows fl f tx rows scores)
          (save_rows-Saved f tx rows scores one))
  ]
