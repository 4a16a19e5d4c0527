-- ===== src/Reputation/Provider/Restarted.antt =====
-- What a restart makes of the scores that the provider held.
use shield_agent.Prelude.{
  ℕ, ◌≡◌, ap, refl, sym, ◌∙◌, inl, inr, ◌↔◌, Bool, true, false, Option, none, some, List, [], ◌∷◌,
  Text, ◌=ₜ◌, =ₜ_iff, ltb, length, arith, if◌then◌else◌, Bool-cases, Option-cases,
}
use Prim.Native.Nat.{suc}
use mathlib.Core.Path.{subst}
use shield_agent.Prelude.Result.{ok}
use mathlib.Core.List.{Memᴰ}
use shield_agent.Prelude.Map.{Map}
use shield_agent.Reputation.{Floats, Score, or_one, new_cache, get_multiplier, update}
use shield_agent.Reputation.Provider.Saved.{OneEach, newest, Saved, save_all-Saved}
use shield_agent.Reputation.Cached.{last_of, multiplier_of, get_multiplier-update}
use shield_agent.Reputation.Provider.{
  Tx, Formats, LocalProvider, as_read, save_all, load_all, load_one, new_local_provider,
  get_rate_multiplier, recalculate,
}

is_positive : (n : ℕ) → ltb 0 (suc n) ≡ true
is_positive n = ground arith

module _ (fl : Floats) where
  -- The rows in another order
  abbrev pub SameRows : List (Score fl) → List (Score fl) → Type 0
  SameRows rows rows' = (r : Score fl) → Memᴰ r rows ↔ Memᴰ r rows'

  has_id :
      {t s : Score fl} {b : Bool} (agent : Text)
      → t ≡ s
      → s.agent_id_hash =ₜ agent ≡ b
      → t.agent_id_hash =ₜ agent ≡ b
  has_id agent same own = ap (λ (x : Score fl). x.agent_id_hash =ₜ agent) same ∙ own

  Memᴰ-last_of :
      (ss : List (Score fl)) (agent : Text) (t : Score fl)
      → last_of fl agent ss ≡ some t
      → Memᴰ t ss × (t.agent_id_hash =ₜ agent ≡ true)
  Memᴰ-last_of [] agent t h = absurd (ground arith)
  Memᴰ-last_of (s ∷ ss) agent t h = elim (Option-cases (last_of fl agent ss)) [
    | inr (u, later) ↦
        let (at, own) = Memᴰ-last_of ss agent t (later ∙ (rw later at h)) in (Memᴰ.tail at, own)
    | inl unscored ↦ elim (Bool-cases (s.agent_id_hash =ₜ agent)) [
      | inl own ↦ let same : t ≡ s = ground arith in (Memᴰ.head same, has_id agent same own)
      | inr other ↦ absurd (ground arith)
    ]
  ]

  last_of-other :
      (ss : List (Score fl)) (agent : Text) (t : Score fl)
      → last_of fl agent ss ≡ none
      → Memᴰ t ss
      → t.agent_id_hash =ₜ agent ≡ false
  last_of-other [] agent t h m = elim m [ ]
  last_of-other (s ∷ ss) agent t h (Memᴰ.tail at) = elim (Option-cases (last_of fl agent ss)) [
    | inr (u, later) ↦ absurd (ground arith)
    | inl unscored ↦ last_of-other ss agent t unscored at
  ]
  last_of-other (s ∷ ss) agent t h (Memᴰ.head same) = elim (Option-cases (last_of fl agent ss)) [
    | inr (u, later) ↦ absurd (ground arith)
    | inl unscored ↦ elim (Bool-cases (s.agent_id_hash =ₜ agent)) [
      | inl own ↦ absurd (ground arith)
      | inr other ↦ has_id agent same other
    ]
  ]

  Memᴰ-load_one :
      (rows : List (Score fl)) (agent : Text) (t : Score fl)
      → load_one fl rows agent ≡ some t
      → Memᴰ t rows × (t.agent_id_hash =ₜ agent ≡ true)
  unfolding load_one
  Memᴰ-load_one [] agent t h = absurd (ground arith)
  Memᴰ-load_one (r ∷ rows) agent t h = elim (Bool-cases (r.agent_id_hash =ₜ agent)) [
    | inl own ↦ let same : t ≡ r = ground arith in (Memᴰ.head same, has_id agent same own)
    | inr other ↦ let (at, own) = Memᴰ-load_one rows agent t (rw other at h) in (Memᴰ.tail at, own)
  ]

  -- In any order of a table the last score of an agent is its row.
  last_of-load_one :
      (rows ordered : List (Score fl)) (agent : Text)
      → OneEach fl rows
      → SameRows ordered rows
      → last_of fl agent ordered ≡ load_one fl rows agent
  last_of-load_one rows ordered agent one same = elim (Option-cases (last_of fl agent ordered)) [
    | inr (t, found) ↦
        let (at, own) = Memᴰ-last_of ordered agent t found in
        let row : load_one fl rows t.agent_id_hash ≡ some t = one t ((same t).0 at) in
        let row' : load_one fl rows agent ≡ some t =
          subst (λ a. load_one fl rows a ≡ some t) ((=ₜ_iff t.agent_id_hash agent).0 own) row in
        found ∙ sym row'
    | inl unscored ↦ elim (Option-cases (load_one fl rows agent)) [
      | inl unknown ↦ unscored ∙ sym unknown
      | inr (t, found) ↦
          let (at, own) = Memᴰ-load_one rows agent t found in
          let other = last_of-other ordered agent t unscored ((same t).1 at) in
          absurd (ground arith)
    ]
  ]

  module _ (by_level : Map fl.Float) where
    start-last_of :
        (ss : List (Score fl)) (agent : Text)
        → get_multiplier fl
            (if ltb 0 (length ss) then update fl by_level (new_cache fl) ss else new_cache fl)
            agent
          ≡ or_one fl (multiplier_of fl by_level none (last_of fl agent ss))
    unfolding get_multiplier
    start-last_of [] agent = refl
    start-last_of (s ∷ ss) agent =
        rw (is_positive (length ss))
          (get_multiplier-update fl by_level (new_cache fl) (s ∷ ss) agent)

    multiplier_of-newest :
        (f : Formats fl) (scored old : Option (Score fl))
        → multiplier_of fl by_level none (newest fl f scored old)
          ≡ multiplier_of fl by_level (multiplier_of fl by_level none old) scored
    unfolding as_read
    multiplier_of-newest f none old = refl
    multiplier_of-newest f (some s) old = refl

    -- The multiplier of an agent at a start is that of its row.
    get_rate_multiplier-start :
        (by_trust : List (Score fl) → List (Score fl)) (rows : List (Score fl)) (agent : Text)
        → OneEach fl rows
        → SameRows (by_trust rows) rows
        → get_rate_multiplier fl by_level
            (new_local_provider fl by_level (λ t. some (load_all fl by_trust t)) rows)
            agent
          ≡ or_one fl (multiplier_of fl by_level none (load_one fl rows agent))
    unfolding get_rate_multiplier new_local_provider load_all
    get_rate_multiplier-start by_trust rows agent one same =
        start-last_of (by_trust rows) agent
        ∙ ap (λ (o : Option (Score fl)). or_one fl (multiplier_of fl by_level none o))
            (last_of-load_one rows (by_trust rows) agent one same)

    -- After a recalculation whose scores were saved to a table with at most one row for an agent, a
    -- running provider gives each agent the multiplier of its last score in it, and 1 without one. A
    -- provider that is started again and reads all rows, in any order, gives the same, and to the agents
    -- that were not scored the multiplier of the row that the table had for them.
    pub recalculate-restart :
        (f : Formats fl) (tx : Tx fl) (p : LocalProvider fl) (scores saved : List (Score fl))
        (by_trust : List (Score fl) → List (Score fl)) (agent : Text)
        → OneEach fl p.table
        → save_all fl f tx p.table scores ≡ ok saved
        → SameRows (by_trust saved) saved
        → let (p', ok') = recalculate fl by_level f tx p (some scores) in
          (get_rate_multiplier fl by_level p' agent
            ≡ or_one fl (multiplier_of fl by_level none (last_of fl agent scores)))
          × (get_rate_multiplier fl by_level
                (new_local_provider fl by_level (λ t. some (load_all fl by_trust t)) p'.table)
                agent
              ≡ or_one fl (
                  multiplier_of fl by_level
                    (multiplier_of fl by_level none (load_one fl p.table agent))
                    (last_of fl agent scores)))
    unfolding recalculate
    recalculate-restart f tx p scores saved by_trust agent one done same =
        let (one', last) =
          subst (Saved fl f p.table scores) done (save_all-Saved fl f tx p.table scores one) in
        let after : get_rate_multiplier fl by_level
              (new_local_provider fl by_level (λ t. some (load_all fl by_trust t)) saved) agent
            ≡ or_one fl (
                multiplier_of fl by_level
                  (multiplier_of fl by_level none (load_one fl p.table agent))
                  (last_of fl agent scores)) =
          get_rate_multiplier-start by_trust saved agent one' same
          ∙ ap (λ (o : Option (Score fl)). or_one fl (multiplier_of fl by_level none o))
              (last agent)
          ∙ ap (or_one fl)
              (multiplier_of-newest f (last_of fl agent scores) (load_one fl p.table agent)) in
        rw done (
          unfold get_rate_multiplier in get_multiplier-update fl by_level p.cache scores agent,
          after,
        )
