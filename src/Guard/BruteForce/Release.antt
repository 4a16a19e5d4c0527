-- ===== src/Guard/BruteForce/Release.antt =====
-- When a block ends.
use shield_agent.Prelude.{
  ℕ, ◌+◌, ◌≤◌, ◌≡◌, false, none, some, arith, ltb, if◌then◌else◌, Text, =ₜ_refl,
}
use shield_agent.Guard.BruteForce.{
  BruteForceTracker, FailRecord, record_failure, is_blocked, cleanup,
}

module _ (bf : BruteForceTracker) (key : Text) (rec : FailRecord) (blocked_at : ℕ)
    (at_key : bf.failures key ≡ some rec) (blocked : rec.blocked_at ≡ some blocked_at) where
  -- A key that was blocked is refused exactly until the block's length has passed since then, and
  -- its record is kept exactly as long.
  pub is_blocked_until :
      (now : ℕ)
      → ((is_blocked bf now key).1 ≡ ltb now (blocked_at + bf.block_dur))
        × ((is_blocked bf now key).0.failures key
            ≡ (if ltb now (blocked_at + bf.block_dur) then some rec else none))
  unfolding is_blocked
  is_blocked_until now = (ground arith, ground (arith, =ₜ_refl key))

  -- A failure of a blocked key, once the window since its first failure has passed, opens a new
  -- record: the key is let through at any time after it.
  pub is_blocked-record_failure_late :
      (now asked : ℕ)
      → rec.first_fail + bf.window ≤ now
      → (is_blocked (record_failure bf now key) asked key).1 ≡ false
  unfolding is_blocked record_failure
  is_blocked-record_failure_late now asked late = ground (arith, =ₜ_refl key)

-- The cleanup loop changes no answer: at or after it a key is blocked exactly when it would be
-- without it.
pub is_blocked-cleanup :
    (bf : BruteForceTracker) (ticked now : ℕ) (key : Text)
    → ticked ≤ now
    → (is_blocked (cleanup bf ticked) now key).1 ≡ (is_blocked bf now key).1
unfolding is_blocked cleanup
is_blocked-cleanup bf ticked now key later = ground arith
