-- ===== src/Telemetry/Buffer.antt =====
-- The ring behaves as a queue of the last events, at most as many as its size.
use mathlib.Core.Path.{ap₂}
use shield_agent.Prelude.{
  ℕ, zero, suc, ◌+◌, ◌-◌, ◌%◌, ◌≤◌, ◌<◌, ◌≡◌, ◌≢◌, refl, sym, ap, ◌∙◌, List, [], ◌∷◌, ◌++◌,
  if◌then◌else◌, ltb, arith, length, inl, inr, Bool-cases, drop,
}
use shield_agent.Telemetry.{Event, Collector, ring_size, set, put, events_from, drain, flush}

right_zero : (s i : ℕ) → (s + i) % ring_size ≡ (s + (i + 0)) % ring_size
right_zero s i = omega arith

one_more : (s i n : ℕ) → (s + (i + 1 + n)) % ring_size ≡ (s + (i + suc n)) % ring_size
one_more s i n = omega arith

shifted : (s i : ℕ) → ((s + 1) % ring_size + i) % ring_size ≡ (s + (i + 1)) % ring_size
shifted s i = omega arith

before_head :
    (s i n h : ℕ) → h ≡ (s + (i + suc n)) % ring_size → suc n < ring_size → h ≢ (s + i) % ring_size
before_head s i n h at few = omega arith

same_start :
    (h n : ℕ)
    → h < ring_size
    → n < ring_size
    → ((h + 1) % ring_size + ring_size - (n + 1)) % ring_size ≡ (h + ring_size - n) % ring_size
same_start h n hh hn = omega arith

at_head :
    (h n : ℕ)
    → h < ring_size
    → n < ring_size
    → ((h + ring_size - n) % ring_size + (0 + n)) % ring_size ≡ h
at_head h n hh hn = omega arith

full_start :
    (h m : ℕ)
    → h < ring_size
    → suc m ≡ ring_size
    → ((h + 1) % ring_size + ring_size - suc m) % ring_size ≡ (h + 1) % ring_size
full_start h m hh hm = omega arith

round : (h m : ℕ) → h < ring_size → suc m ≡ ring_size → (h + (1 + m)) % ring_size ≡ h
round h m hh hm = omega arith

old_start : (h m : ℕ) → h < ring_size → suc m ≡ ring_size → (h + ring_size - suc m) % ring_size ≡ h
old_start h m hh hm = omega arith

module _ (F : Type 0) where
  -- The abstract queue: a full one forgets its oldest event.
  unfoldable pub push : List (Event F) → Event F → List (Event F)
  push q e = if ltb (length q) ring_size then q ++ e ∷ [] else drop 1 q ++ e ∷ []

  pub record IsValid (c : Collector F) : Type 0 where
    pub head_in : c.head < ring_size
    pub count_in : c.count ≤ ring_size

  length-events_from : (r : ℕ → Event F) (s i n : ℕ) → length (events_from F r s i n) ≡ n
  unfolding events_from
  length-events_from r s i zero = refl
  length-events_from r s i (suc n) = ap suc (length-events_from r s (i + 1) n)

  events_from-last :
      (r : ℕ → Event F) (s i n : ℕ)
      → events_from F r s i (suc n) ≡ events_from F r s i n ++ r ((s + (i + n)) % ring_size) ∷ []
  unfolding events_from
  events_from-last r s i zero = ap (λ k. r k ∷ []) (right_zero s i)
  events_from-last r s i (suc n) =
      ap (λ (l : List (Event F)). r ((s + i) % ring_size) ∷ l)
        (events_from-last r s (i + 1) n
          ∙ ap (λ k. events_from F r s (i + 1) n ++ r k ∷ []) (one_more s i n))

  events_from-shift :
      (r : ℕ → Event F) (s i n : ℕ)
      → events_from F r ((s + 1) % ring_size) i n ≡ events_from F r s (i + 1) n
  unfolding events_from
  events_from-shift r s i zero = refl
  events_from-shift r s i (suc n) =
      ap₂ (λ k (l : List (Event F)). r k ∷ l) (shifted s i) (events_from-shift r s (i + 1) n)

  events_from-set :
      (r : ℕ → Event F) (e : Event F) (h s i n : ℕ)
      → h ≡ (s + (i + n)) % ring_size
      → n < ring_size
      → events_from F (set F r h e) s i n ≡ events_from F r s i n
  unfolding events_from
  events_from-set r e h s i zero at few = refl
  events_from-set r e h s i (suc n) at few =
      ap₂ (λ (x : Event F) (l : List (Event F)). x ∷ l) (ground (arith, before_head s i n h at few))
        (events_from-set r e h s (i + 1) n (at ∙ sym (one_more s i n)) (omega arith))

  -- The queue of a collector, oldest first.
  abbrev pub contents : Collector F → List (Event F)
  contents c = drain F c

  pub put-IsValid : (c : Collector F) (e : Event F) → IsValid c → IsValid (put F c e)
  unfolding put
  put-IsValid c e v = ground arith

  pub flush-IsValid : (c : Collector F) → IsValid c → IsValid (flush F c).0
  unfolding flush
  flush-IsValid c v = ground arith

  pub length-drain : (c : Collector F) → length (drain F c) ≡ c.count
  unfolding drain
  length-drain c = length-events_from c.ring ((c.head + ring_size - c.count) % ring_size) 0 c.count

  set_self : (r : ℕ → Event F) (h : ℕ) (e : Event F) (j : ℕ) → j ≡ h → set F r h e j ≡ e
  set_self r h e j same = ground arith

  drop_one :
      (r : ℕ → Event F) (s m : ℕ) → drop 1 (events_from F r s 0 (suc m)) ≡ events_from F r s 1 m
  unfolding events_from
  drop_one r s m = refl

  -- A ring with room: the new event comes after the others.
  put_room :
      (r : ℕ → Event F) (e : Event F) (h n : ℕ)
      → h < ring_size
      → n < ring_size
      → events_from F
          (set F r h e)
          (((h + 1) % ring_size + ring_size - (n + 1)) % ring_size)
          0
          (suc n)
        ≡ events_from F r ((h + ring_size - n) % ring_size) 0 n ++ e ∷ []
  put_room r e h n hh hn =
      let s = (h + ring_size - n) % ring_size in
      ap (λ k. events_from F (set F r h e) k 0 (suc n)) (same_start h n hh hn)
      ∙ events_from-last (set F r h e) s 0 n
      ∙ ap₂ (λ (l : List (Event F)) (x : Event F). l ++ x ∷ [])
          (events_from-set r e h s 0 n (sym (at_head h n hh hn)) hn)
          (set_self r h e ((s + (0 + n)) % ring_size) (at_head h n hh hn))

  -- A full ring: the new event takes the place of the oldest.
  put_full :
      (r : ℕ → Event F) (e : Event F) (h m : ℕ)
      → h < ring_size
      → suc m ≡ ring_size
      → events_from F
          (set F r h e)
          (((h + 1) % ring_size + ring_size - suc m) % ring_size)
          0
          (suc m)
        ≡ drop 1 (events_from F r ((h + ring_size - suc m) % ring_size) 0 (suc m)) ++ e ∷ []
  put_full r e h m hh hm =
      ap (λ k. events_from F (set F r h e) k 0 (suc m)) (full_start h m hh hm)
      ∙ events_from-shift (set F r h e) h 0 (suc m)
      ∙ events_from-last (set F r h e) h 1 m
      ∙ ap₂ (λ (l : List (Event F)) (x : Event F). l ++ x ∷ [])
          (events_from-set r e h h 1 m (sym (round h m hh hm)) (omega arith)
            ∙ ap (λ k. events_from F r k 1 m) (sym (old_start h m hh hm))
            ∙ sym (drop_one r ((h + ring_size - suc m) % ring_size) m))
          (set_self r h e ((h + (1 + m)) % ring_size) (round h m hh hm))

  pub drain-put :
      (c : Collector F) (e : Event F) → IsValid c → drain F (put F c e) ≡ push (drain F c) e
  unfolding push drain put
  drain-put c e v = elim (Bool-cases (ltb c.count ring_size)) [
    | inl room ↦
        ground (arith, put_room c.ring e c.head c.count v.head_in (ground arith), length-drain c)
    | inr full ↦
        ground
          (arith, put_full c.ring e c.head (c.count - 1) v.head_in (ground arith), length-drain c)
  ]
