-- ===== src/Guard/RateLimiter/Bounds.antt =====
-- How many requests the limiter lets through.
use shield_agent.Prelude.{
  ℕ, suc, ◌+◌, ◌-◌, ◌*◌, ◌≤◌, ◌<◌, ◌≡◌, refl, ◌⊎◌, inl, inr, Bool-cases, Bool, true, false, Option,
  none, some, List, [], ◌∷◌, arith, Text, ◌=ₜ◌, =ₜ_iff, =ₜ_refl, if◌then◌else◌, All, ◌&&◌, leb,
}
use shield_agent.Guard.RateLimiter.{RateLimiter, Bucket, allow_with_limit, cleanup}

-- What happens to a limiter: a request with its limit, or a tick of the cleanup loop.
pub data Event : Type 0 where
  request : ℕ → Text → ℕ → Event
  tick : ℕ → Event

unfoldable pub step : RateLimiter → Event → RateLimiter × Bool
unfolding allow_with_limit cleanup
step rl (request now key limit) = allow_with_limit rl now key limit
step rl (tick now) = (cleanup rl now, false)

abbrev pub is_for : Text → Event → Bool
is_for key (request _ k _) = k =ₜ key
is_for key (tick _) = false

-- The requests for `key` that a run of events lets through.
unfoldable pub admitted : Text → RateLimiter → List Event → ℕ
unfolding step
admitted key rl [] = 0
admitted key rl (e ∷ es) =
    let rest = admitted key (step rl e).0 es in
    if is_for key e && (step rl e).1 then suc rest else rest

-- The event falls in the window that opens at `start`, and asks for at most `limit`.
abbrev pub Within : ℕ → ℕ → ℕ → Event → Type 0
Within start length limit (request now _ l) = (start ≤ now) × (now < start + length) × (l ≤ limit)
Within start length limit (tick now) = (start ≤ now) × (now < start + length)

window-step : (rl : RateLimiter) (e : Event) → (step rl e).0.window ≡ rl.window
unfolding step
window-step rl (request now k l) = ground arith
window-step rl (tick now) = refl

module _ (key : Text) (start limit : ℕ) where
  -- A bucket that opened inside the window takes one more request or stays as it is.
  abbrev Filled : RateLimiter → Event → Bucket → Type 0
  Filled rl e b =
      ((is_for key e && (step rl e).1) ≡ true)
      × ((step rl e).0.buckets key ≡ some (record b { count = b.count + 1 }))
      × (b.count < limit)

  abbrev Kept : RateLimiter → Event → Bucket → Type 0
  Kept rl e b = ((is_for key e && (step rl e).1) ≡ false) × ((step rl e).0.buckets key ≡ some b)

  step-open :
      (rl : RateLimiter) (e : Event) (b : Bucket)
      → Within start rl.window limit e
      → rl.buckets key ≡ some b
      → start ≤ b.window_start
      → Filled rl e b ⊎ Kept rl e b
  unfolding step
  step-open rl (request now k l) b w at_key le = elim (Bool-cases (k =ₜ key)) [
    | inl same ↦ rw ((=ₜ_iff k key).0 same) (ground (arith, =ₜ_refl key))
    | inr other ↦ ground arith
  ]
  step-open rl (tick now) b w at_key le = ground arith

  open_bound :
      (rl : RateLimiter) (es : List Event) (b : Bucket)
      → All (Within start rl.window limit) es
      → rl.buckets key ≡ some b
      → start ≤ b.window_start
      → b.count ≤ limit
      → admitted key rl es + b.count ≤ limit
  unfolding admitted
  open_bound rl [] b w at_key le room = omega arith
  open_bound rl (e ∷ es) b (w, ws) at_key le room =
      let later : All (Within start (step rl e).0.window limit) es = rw (window-step rl e) ws in
      elim (step-open rl e b w at_key le) [
        | inl (yes', next, more) ↦ rw yes' (
            omega (
              arith,
              open_bound (step rl e).0 es (record b { count = b.count + 1 }) later next le
                  (omega arith),
            ))
        | inr (no', next) ↦ rw no' (open_bound (step rl e).0 es b later next le room)
      ]

  -- How much a window may still let through, whatever bucket it starts with.
  abbrev headroom : Option Bucket → ℕ
  headroom none = limit
  headroom (some b) = limit - b.count + limit

  limit-le-headroom : (o : Option Bucket) → limit ≤ headroom o
  limit-le-headroom none = omega arith
  limit-le-headroom (some b) = omega arith

  abbrev Opened : RateLimiter → Event → Type 0
  Opened rl e =
      ((is_for key e && (step rl e).1) ≡ true)
      × (t : ℕ) × ((step rl e).0.buckets key ≡ some (record { count = 1; window_start = t }))
      × (start ≤ t)

  abbrev Spent : RateLimiter → Event → Type 0
  Spent rl e =
      (if is_for key e && (step rl e).1 then 1 else 0) + headroom ((step rl e).0.buckets key)
      ≤ headroom (rl.buckets key)

  slot-headroom :
      (rl : RateLimiter) (now l : ℕ) (o : Option Bucket)
      → rl.buckets key ≡ o
      → start ≤ now
      → l ≤ limit
      → Opened rl (request now key l) ⊎ Spent rl (request now key l)
  unfolding step
  slot-headroom rl now l none at_key le room =
      inl (ground (arith, =ₜ_refl key), now, ground (arith, =ₜ_refl key), le)
  slot-headroom rl now l (some b) at_key le room =
      elim (Bool-cases (leb (b.window_start + rl.window) now)) [
        | inl over ↦ inl (ground (arith, =ₜ_refl key), now, ground (arith, =ₜ_refl key), le)
        | inr within ↦ inr (ground (arith, =ₜ_refl key))
      ]

  step-headroom :
      (rl : RateLimiter) (e : Event) → Within start rl.window limit e → Opened rl e ⊎ Spent rl e
  unfolding step
  step-headroom rl (request now k l) w = elim (Bool-cases (k =ₜ key)) [
    | inl same ↦ rw ((=ₜ_iff k key).0 same) (slot-headroom rl now l (rl.buckets key) refl w.0 w.2)
    | inr other ↦ inr (ground arith)
  ]
  step-headroom rl (tick now) w = inr (ground arith)

  admitted-headroom :
      (rl : RateLimiter) (es : List Event)
      → 0 < limit
      → All (Within start rl.window limit) es
      → admitted key rl es ≤ headroom (rl.buckets key)
  unfolding admitted
  admitted-headroom rl [] pos w = omega arith
  admitted-headroom rl (e ∷ es) pos (w, ws) =
      let later : All (Within start (step rl e).0.window limit) es = rw (window-step rl e) ws in
      elim (step-headroom rl e w) [
        | inl (passed, t, next, le) ↦
            let rest : admitted key (step rl e).0 es + 1 ≤ limit =
              open_bound (step rl e).0 es (record { count = 1; window_start = t }) later next le
                pos in
            rw passed (omega (arith, rest, limit-le-headroom (rl.buckets key)))
        | inr spent ↦ ground (arith, admitted-headroom (step rl e).0 es pos later)
      ]

-- However a limiter was used before, and however requests for other keys and cleanup ticks are
-- interleaved, at most twice the limit of requests for one key pass within one window's length, for
-- a positive limit that no request exceeds.
pub admitted-le-twice_limit :
    (key : Text) (start limit : ℕ) (rl : RateLimiter) (es : List Event)
    → 0 < limit
    → All (Within start rl.window limit) es
    → admitted key rl es ≤ 2 * limit
admitted-le-twice_limit key start limit rl es pos w =
    ground (arith, admitted-headroom key start limit rl es pos w)

-- A key that has no bucket yet gets at most its limit within one window's length, however requests
-- for other keys and cleanup ticks are interleaved, for a positive limit that no request exceeds.
pub admitted-le-limit :
    (key : Text) (start limit : ℕ) (rl : RateLimiter) (es : List Event)
    → 0 < limit
    → rl.buckets key ≡ none
    → All (Within start rl.window limit) es
    → admitted key rl es ≤ limit
admitted-le-limit key start limit rl es pos unseen w =
    rw unseen at (admitted-headroom key start limit rl es pos w)
