-- ===== src/Guard/BruteForce/Threshold.antt =====
-- After how many failures a key is blocked.
use native.Mathlib.Nat.{add-zero}
use shield_agent.Prelude.{
  ℕ, suc, ◌+◌, ◌≤◌, ◌<◌, ◌≡◌, refl, false, none, some, List, [], ◌∷◌, arith, Text, =ₜ_refl, All,
  leb, length, Bool-cases, ◌⊎◌, inl, inr, ap, ◌∙◌,
}
use shield_agent.Guard.BruteForce.{BruteForceTracker, FailRecord, record_failure, is_blocked, first}

-- Failures of one key, in order.
unfoldable pub fail_all : BruteForceTracker → Text → List ℕ → BruteForceTracker
unfolding record_failure
fail_all bf key [] = bf
fail_all bf key (now ∷ later) = fail_all (record_failure bf now key) key later

settings-record_failure :
    (bf : BruteForceTracker) (now : ℕ) (key : Text)
    → ((record_failure bf now key).window ≡ bf.window)
      × ((record_failure bf now key).max_fails ≡ bf.max_fails)
      × ((record_failure bf now key).block_dur ≡ bf.block_dur)
unfolding record_failure
settings-record_failure bf now key = (refl, refl, refl)

module _ (key : Text) (start window max_fails block_dur : ℕ) where
  -- The record that a run of failures since `start` builds: below the limit, or blocked since then.
  record Counted (bf : BruteForceTracker) (fails : ℕ) : Type 0 where
    rec : FailRecord
    at_key : bf.failures key ≡ some rec
    opened : rec.first_fail ≡ start
    counted : rec.count ≡ fails
    status :
        ((rec.blocked_at ≡ none) × (fails < max_fails))
        ⊎ ((b : ℕ) × (rec.blocked_at ≡ some b) × (start ≤ b) × (max_fails ≤ fails))
    same_window : bf.window ≡ window
    same_max : bf.max_fails ≡ max_fails
    same_dur : bf.block_dur ≡ block_dur

  Counted-record_failure :
      (bf : BruteForceTracker) (fails now : ℕ)
      → Counted bf fails
      → start ≤ now
      → now < start + window
      → Counted (record_failure bf now key) (fails + 1)
  unfolding record_failure
  Counted-record_failure bf fails now c le w = elim c.status [
    | inl (free, few) ↦ elim (Bool-cases (leb bf.max_fails (c.rec.count + 1))) [
      | inl reached ↦
          grown (record c.rec { count = c.rec.count + 1; blocked_at = some now })
            (ground (arith, =ₜ_refl key)) c.opened (omega arith) (inr (now, refl, le, ground arith))
      | inr below ↦
          grown (record c.rec { count = c.rec.count + 1 }) (ground (arith, =ₜ_refl key)) c.opened
            (omega arith) (inl (free, ground arith))
    ]
    | inr (b, held, since, many) ↦
        grown (record c.rec { count = c.rec.count + 1 }) (ground (arith, =ₜ_refl key)) c.opened
          (omega arith) (inr (b, held, since, omega arith))
  ]
    where
      grown :
          (rec : FailRecord)
          → (record_failure bf now key).failures key ≡ some rec
          → rec.first_fail ≡ start
          → rec.count ≡ fails + 1
          → ((rec.blocked_at ≡ none) × (fails + 1 < max_fails))
            ⊎ ((b : ℕ) × (rec.blocked_at ≡ some b) × (start ≤ b) × (max_fails ≤ fails + 1))
          → Counted (record_failure bf now key) (fails + 1)
      grown rec at_key opened counted status = record {
        rec = rec;
        at_key = at_key;
        opened = opened;
        counted = counted;
        status = status;
        same_window = c.same_window;
        same_max = c.same_max;
        same_dur = c.same_dur;
      }

  Counted-fail_all :
      (bf : BruteForceTracker) (fails : ℕ) (later : List ℕ)
      → Counted bf fails
      → All (λ t. (start ≤ t) × (t < start + window)) later
      → Counted (fail_all bf key later) (fails + length later)
  unfolding fail_all
  Counted-fail_all bf fails [] c w = rw add-zero c
  Counted-fail_all bf fails (now ∷ later) c ((le, lt), w) =
      let ih : Counted (fail_all (record_failure bf now key) key later) (fails + 1 + length later) =
        Counted-fail_all (record_failure bf now key) (fails + 1) later
          (Counted-record_failure bf fails now c le lt) w in
      rw (← shift fails (length later)) ih
    where
      shift : (a b : ℕ) → a + 1 + b ≡ a + suc b
      shift a b = omega arith

  is_blocked-Counted :
      (bf : BruteForceTracker) (fails now : ℕ)
      → Counted bf fails
      → now < start + block_dur
      → (is_blocked bf now key).1 ≡ leb max_fails fails
  unfolding is_blocked
  is_blocked-Counted bf fails now c w = elim c.status [
    | inl (free, few) ↦ ground arith
    | inr (b, held, since, many) ↦ ground arith
  ]

-- The failures of a key with no record, all within one window of the first, block the key exactly
-- if they are as many as the limit, for a limit of at least two and at any time before the block's
-- length has passed since the first.
pub is_blocked-fail_all :
    (bf : BruteForceTracker) (key : Text) (first_fail now : ℕ) (later : List ℕ)
    → 2 ≤ bf.max_fails
    → bf.failures key ≡ none
    → All (λ t. (first_fail ≤ t) × (t < first_fail + bf.window)) later
    → now < first_fail + bf.block_dur
    → (is_blocked (fail_all bf key (first_fail ∷ later)) now key).1
      ≡ leb bf.max_fails (length (first_fail ∷ later))
unfolding fail_all record_failure
is_blocked-fail_all bf key first_fail now later two unseen w before =
    let opened : Counted key first_fail bf.window bf.max_fails bf.block_dur
        (record_failure bf first_fail key) 1 =
      record {
        rec = first first_fail;
        at_key = ground (arith, =ₜ_refl key);
        opened = refl;
        counted = refl;
        status = inl (refl, omega arith);
        same_window = refl;
        same_max = refl;
        same_dur = refl;
      } in
    let all =
      Counted-fail_all key first_fail bf.window bf.max_fails bf.block_dur
        (record_failure bf first_fail key) 1 later opened w in
    is_blocked-Counted key first_fail bf.window bf.max_fails bf.block_dur
      (fail_all (record_failure bf first_fail key) key later) (1 + length later) now all before
    ∙ ap (leb bf.max_fails) one_more
  where
    one_more : 1 + length later ≡ suc (length later)
    one_more = omega arith

-- With a limit of one, the first failure of a key does not block it; it takes a second one.
pub is_blocked-record_failure_first :
    (bf : BruteForceTracker) (key : Text) (failed now : ℕ)
    → bf.failures key ≡ none
    → (is_blocked (record_failure bf failed key) now key).1 ≡ false
unfolding is_blocked record_failure
is_blocked-record_failure_first bf key failed now unseen = ground (arith, =ₜ_refl key)
