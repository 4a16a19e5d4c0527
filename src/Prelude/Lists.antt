-- ===== src/Prelude/Lists.antt =====
-- Lists measured by native numbers, and predicates on their elements.
use Prim.Native.Nat.{ℕ, zero, suc, ◌+◌}
use mathlib.Core.Path.{◌≡◌, refl}
use mathlib.Core.Logic.{◌≢◌, ◌↔◌, inl, inr}
use mathlib.Core.Bool.{Bool, true, false, ◌||◌}
use mathlib.Core.List.{List, [], ◌∷◌, ◌++◌, Memᴰ}
use mathlib.Core.Option.{Option, none, some}
use native.Mathlib.Omega.{arith}
use shield_agent.Prelude.Tests.{Bool-cases, if◌then◌else◌}

module _ {ℓ} {A : Type ℓ} where
  abbrev pub length : List A → ℕ
  length [] = 0
  length (x ∷ xs) = suc (length xs)

  pub length-append : (xs ys : List A) → length (xs ++ ys) ≡ length xs + length ys
  length-append [] ys = omega arith
  length-append (x ∷ xs) ys = omega (arith, length-append xs ys)

  -- Whether some element passes the test, tried from the front.
  abbrev pub any : (A → Bool) → List A → Bool
  any p [] = false
  any p (x ∷ xs) = p x || any p xs

  abbrev pub keep : (A → Bool) → List A → List A
  keep p [] = []
  keep p (x ∷ xs) = let rest = keep p xs in if p x then x ∷ rest else rest

  abbrev pub count_if : (A → Bool) → List A → ℕ
  count_if p [] = 0
  count_if p (x ∷ xs) = let rest = count_if p xs in if p x then suc rest else rest

  pub count_if-append :
      (p : A → Bool) (xs ys : List A) → count_if p (xs ++ ys) ≡ count_if p xs + count_if p ys
  count_if-append p [] ys = omega arith
  count_if-append p (x ∷ xs) ys = ground (arith, count_if-append p xs ys)

  pub keep-append : (p : A → Bool) (xs ys : List A) → keep p (xs ++ ys) ≡ keep p xs ++ keep p ys
  keep-append p [] ys = refl
  keep-append p (x ∷ xs) ys = ground (arith, keep-append p xs ys)

  abbrev pub get_elem? : List A → ℕ → Option A
  get_elem? [] i = none
  get_elem? (x ∷ xs) zero = some x
  get_elem? (x ∷ xs) (suc i) = get_elem? xs i

-- Some element of the list passes the test.
abbrev pub AnyOf {ℓ} : {A : Type ℓ} → (A → Bool) → List A → Type ℓ
AnyOf {A} p xs = (x : A) × Memᴰ x xs × (p x ≡ true)

module _ {ℓ} {A : Type ℓ} (p : A → Bool) where
  any_sound : (xs : List A) → any p xs ≡ true → AnyOf p xs
  any_sound [] h = cc
  any_sound (x ∷ xs) h = elim (Bool-cases (p x)) [
    | inl here ↦ (x, Memᴰ.head refl, here)
    | inr other ↦ let (y, at, holds) = any_sound xs (rw other at h) in (y, Memᴰ.tail at, holds)
  ]

  any_complete : (xs : List A) (x : A) → Memᴰ x xs → p x ≡ true → any p xs ≡ true
  any_complete [] x m h = elim m [ ]
  any_complete (y ∷ xs) x (Memᴰ.head e) h = rw (← e) (rw h)
  any_complete (y ∷ xs) x (Memᴰ.tail m) h = ground (arith, any_complete xs x m h)

  pub any_iff : (xs : List A) → (any p xs ≡ true) ↔ AnyOf p xs
  any_iff xs = (any_sound xs, λ found. any_complete xs found.0 found.1 found.2)

module _ {ℓ} {A : Type ℓ} where
  abbrev pub drop : ℕ → List A → List A
  drop zero xs = xs
  drop (suc n) [] = []
  drop (suc n) (x ∷ xs) = drop n xs

  abbrev pub take : ℕ → List A → List A
  take zero xs = []
  take (suc n) [] = []
  take (suc n) (x ∷ xs) = x ∷ take n xs

module _ {ℓ κ} {A : Type ℓ} (P : A → Type κ) where
  abbrev pub All : List A → Type κ
  All [] = Unit
  All (x ∷ xs) = P x × All xs

  pub All-append : (xs ys : List A) → All xs → All ys → All (xs ++ ys)
  All-append [] ys _ hy = hy
  All-append (x ∷ xs) ys (px, hx) hy = (px, All-append xs ys hx hy)

-- A list is cut in one way at the first element that is a given one.
pub append-cut :
    {A : Type 0} (x : A) (s t a b : List A)
    → All (λ c. c ≢ x) s
    → All (λ c. c ≢ x) t
    → s ++ x ∷ a ≡ t ++ x ∷ b
    → (s ≡ t) × (a ≡ b)
append-cut x [] [] a b hs ht e = (refl, cc)
append-cut x [] (c ∷ t) a b hs ht e = absurd (ht.0 (cc))
append-cut x (c ∷ s) [] a b hs ht e = absurd (hs.0 (cc))
append-cut x (c ∷ s) (d ∷ t) a b hs ht e =
    let (front, rest) = append-cut x s t a b hs.1 ht.1 (cc) in (cc, rest)
