-- ===== src/Guard/BruteForce.antt =====
-- The brute-force tracker of internal/middleware/guard.go. A zero `blockedAt` is `none`; times are
-- nanoseconds, and `now.Sub(t) >= d` is read as `t + d <= now`. `cleanup` is one round of the
-- ticker's loop.
pub mod Threshold
pub mod Release
use shield_agent.Prelude.{
  ℕ, ◌+◌, ◌*◌, Bool, true, false, Option, none, some, ◌&&◌, leb, Text, if◌then◌else◌,
}
use shield_agent.Prelude.Map.{Map, empty, insert, delete, delete_if}

pub record FailRecord : Type 0 where
  pub count : ℕ
  pub first_fail : ℕ
  pub blocked_at : Option ℕ

pub record BruteForceTracker : Type 0 where
  pub max_fails : ℕ
  pub window : ℕ
  pub block_dur : ℕ
  pub failures : Map FailRecord

unfoldable pub new_brute_force_tracker : ℕ → ℕ → ℕ → BruteForceTracker
new_brute_force_tracker max_fails window block_dur = record {
  max_fails = max_fails;
  window = window;
  block_dur = block_dur;
  failures = empty;
}

abbrev pub is_zero : Option ℕ → Bool
is_zero none = true
is_zero (some _) = false

abbrev pub put : BruteForceTracker → Text → FailRecord → BruteForceTracker
put bf key rec = record bf { failures = insert key rec bf.failures }

abbrev pub first : ℕ → FailRecord
first now = record { count = 1; first_fail = now; blocked_at = none }

-- `rec.count++`, and the block where the count has reached the limit
abbrev pub count_up : BruteForceTracker → ℕ → FailRecord → FailRecord
count_up bf now rec =
    if leb bf.max_fails (rec.count + 1) && is_zero rec.blocked_at
    then record rec { count = rec.count + 1; blocked_at = some now }
    else record rec { count = rec.count + 1 }

abbrev pub next_record : BruteForceTracker → ℕ → Option FailRecord → FailRecord
next_record bf now none = first now
next_record bf now (some rec) =
    if leb (rec.first_fail + bf.window) now then first now else count_up bf now rec

unfoldable pub record_failure : BruteForceTracker → ℕ → Text → BruteForceTracker
record_failure bf now key = put bf key (next_record bf now (bf.failures key))

abbrev pub check_block : BruteForceTracker → ℕ → Text → Option ℕ → BruteForceTracker × Bool
check_block bf now key none = (bf, false)
check_block bf now key (some blocked_at) =
    if leb (blocked_at + bf.block_dur) now
    then (record bf { failures = delete key bf.failures }, false)
    else (bf, true)

abbrev pub check_record :
    BruteForceTracker → ℕ → Text → Option FailRecord → BruteForceTracker × Bool
check_record bf now key none = (bf, false)
check_record bf now key (some rec) = check_block bf now key rec.blocked_at

unfoldable pub is_blocked : BruteForceTracker → ℕ → Text → BruteForceTracker × Bool
is_blocked bf now key = check_record bf now key (bf.failures key)

abbrev pub is_stale : BruteForceTracker → ℕ → FailRecord → Bool
is_stale bf now rec = elim rec.blocked_at [
  | none ↦ leb (rec.first_fail + bf.window * 2) now
  | some blocked_at ↦ leb (blocked_at + bf.block_dur) now
]

unfoldable pub cleanup : BruteForceTracker → ℕ → BruteForceTracker
cleanup bf now = record bf { failures = delete_if (is_stale bf now) bf.failures }
