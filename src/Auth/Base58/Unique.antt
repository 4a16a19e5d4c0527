-- ===== src/Auth/Base58/Unique.antt =====
-- A number has one text in base 58 that does not start with a zero digit.
use mathlib.Core.Path.{subst, ap₂}
use shield_agent.Prelude.{
  ℕ, zero, suc, ◌+◌, ◌*◌, ◌<◌, ◌==◌, ◌≡◌, ◌≢◌, refl, sym, ap, ◌∙◌, some, List, [], ◌∷◌, ◌++◌, Text,
  arith, inl, inr, Bool-cases, Option-cases, All, All-append, length,
}
use shield_agent.Auth.Base58.{lookup, alphabet, convert, reversed, add_digit}
use shield_agent.Prelude.Result.{Result, ok, err}
use shield_agent.Auth.Base58.Value.{base58_from, digit_of}

lookup-bound : (cs : Text) (ch i : ℕ) → lookup cs ch ≡ some i → i < length cs
unfolding lookup
lookup-bound [] ch i e = cc
lookup-bound (c ∷ cs) ch i e = elim (Option-cases (lookup cs ch)) [
  | inl missing ↦ ground arith
  | inr (k, at) ↦ ground (arith, lookup-bound cs ch k at)
]

lookup-injective : (cs : Text) (a b i : ℕ) → lookup cs a ≡ some i → lookup cs b ≡ some i → a ≡ b
unfolding lookup
lookup-injective [] a b i e f = cc
lookup-injective (c ∷ cs) a b i e f = elim (Option-cases (lookup cs a)) [
  | inl missing ↦ ground arith
  | inr (k, at) ↦ elim (Option-cases (lookup cs b)) [
    | inl missing ↦ ground arith
    | inr (l, at') ↦ elim (Bool-cases (c == a)) [
      | inl here ↦ ground arith
      | inr there ↦ lookup-injective cs a b k at (at' ∙ ground arith)
    ]
  ]
]

-- The value of digits that come most significant first, and the bounds that it keeps.
abbrev number : ℕ → List ℕ → ℕ
number start [] = start
number start (d ∷ ds) = number (58 * start + d) ds

-- Little-endian value; `Proper` says that the last digit is not zero.
abbrev value : List ℕ → ℕ
value [] = 0
value (d ∷ ds) = d + 58 * value ds

abbrev Small : List ℕ → Type 0
Small = All (λ d. d < 58)

abbrev Proper : List ℕ → Type 0
Proper [] = Unit
Proper (d ∷ []) = 0 < d
Proper (d ∷ e ∷ ds) = Proper (e ∷ ds)

value-Proper : (d : ℕ) (ds : List ℕ) → Proper (d ∷ ds) → 0 < value (d ∷ ds)
value-Proper d [] p = omega arith
value-Proper d (e ∷ ds) p = ground (arith, value-Proper e ds p)

head_digit : (d e v w : ℕ) → d < 58 → e < 58 → d + 58 * v ≡ e + 58 * w → (d ≡ e) × (v ≡ w)
head_digit d e v w a b h = (omega arith, omega arith)

Proper-rest : (d : ℕ) (ds : List ℕ) → Proper (d ∷ ds) → Proper ds
Proper-rest d [] p = tt
Proper-rest d (e ∷ ds) p = p

value-injective :
    (xs ys : List ℕ) → Small xs → Small ys → Proper xs → Proper ys → value xs ≡ value ys → xs ≡ ys
value-injective [] [] a b p q h = refl
value-injective [] (y ∷ ys) a b p q h = elim (apart (value (y ∷ ys)) (value-Proper y ys q) h) [ ]
  where
    apart : (n : ℕ) → 0 < n → 0 ≡ n → ⊥
    apart n lt e = omega arith
value-injective (x ∷ xs) [] a b p q h = elim (apart (value (x ∷ xs)) (value-Proper x xs p) h) [ ]
  where
    apart : (n : ℕ) → 0 < n → n ≡ 0 → ⊥
    apart n lt e = omega arith
value-injective (x ∷ xs) (y ∷ ys) (ax, a) (by, b) p q h =
    let (same, rest) = head_digit x y (value xs) (value ys) ax by h in
    ap₂ (λ (d : ℕ) (ds : List ℕ). d ∷ ds) same
      (value-injective xs ys a b (Proper-rest x xs p) (Proper-rest y ys q) rest)

reversed-append : (xs : List ℕ) (d : ℕ) → reversed (xs ++ d ∷ []) ≡ d ∷ reversed xs
unfolding reversed
reversed-append [] d = refl
reversed-append (x ∷ xs) d = ap (λ (l : List ℕ). l ++ x ∷ []) (reversed-append xs d)

reversed_twice : (ds : List ℕ) → reversed (reversed ds) ≡ ds
unfolding reversed
reversed_twice [] = refl
reversed_twice (d ∷ ds) =
    reversed-append (reversed ds) d ∙ ap (λ (l : List ℕ). d ∷ l) (reversed_twice ds)

number-append :
    (start : ℕ) (xs : List ℕ) (d : ℕ) → number start (xs ++ d ∷ []) ≡ 58 * number start xs + d
number-append start [] d = refl
number-append start (x ∷ xs) d = number-append (58 * start + x) xs d

number-reversed : (ds : List ℕ) → number 0 (reversed ds) ≡ value ds
unfolding reversed
number-reversed [] = refl
number-reversed (d ∷ ds) = number-append 0 (reversed ds) d ∙ ground (arith, number-reversed ds)

Proper-append : (xs : List ℕ) (d : ℕ) → 0 < d → Proper (xs ++ d ∷ [])
Proper-append [] d h = h
Proper-append (x ∷ []) d h = h
Proper-append (x ∷ y ∷ xs) d h = Proper-append (y ∷ xs) d h

Small-reversed : (ds : List ℕ) → Small ds → Small (reversed ds)
unfolding reversed
Small-reversed [] a = tt
Small-reversed (d ∷ ds) (small, a) =
    All-append (λ d. d < 58) (reversed ds) (d ∷ []) (Small-reversed ds a) (small, tt)

abbrev digits : Text → List ℕ
digits [] = []
digits (ch ∷ s) = digit_of (lookup alphabet ch) ∷ digits s

abbrev pub Known : Text → Type 0
Known = All (λ ch. (i : ℕ) × (lookup alphabet ch ≡ some i))

base58_from-number : (start : ℕ) (s : Text) → base58_from start s ≡ number start (digits s)
base58_from-number start [] = refl
base58_from-number start (ch ∷ s) =
    base58_from-number (58 * start + digit_of (lookup alphabet ch)) s

digits-Small : (s : Text) → Known s → Small (digits s)
digits-Small [] k = tt
digits-Small (ch ∷ s) ((i, at), k) =
    (subst (λ o. digit_of o < 58) (sym at) (lookup-bound alphabet ch i at), digits-Small s k)

digits-injective : (s t : Text) → Known s → Known t → digits s ≡ digits t → s ≡ t
digits-injective [] [] a b e = refl
digits-injective [] (_ ∷ _) a b e = cc
digits-injective (_ ∷ _) [] a b e = cc
digits-injective (c ∷ s) (d ∷ t) ((i, at), a) ((k, at'), b) e =
    ap₂ (λ (x : ℕ) (l : Text). x ∷ l)
      (lookup-injective alphabet c d i at (at' ∙ ap (λ (n : ℕ). some n) (sym same)))
      (digits-injective s t a b (
        tails (digit_of (lookup alphabet c)) (digit_of (lookup alphabet d)) (digits s) (digits t)
          e))
  where
    heads : (x y : ℕ) (xs ys : List ℕ) → Path (List ℕ) (x ∷ xs) (y ∷ ys) → x ≡ y
    heads x y xs ys e = cc

    tails : (x y : ℕ) (xs ys : List ℕ) → Path (List ℕ) (x ∷ xs) (y ∷ ys) → xs ≡ ys
    tails x y xs ys e = cc

    same : i ≡ k
    same =
        sym (ap digit_of at)
        ∙ heads (digit_of (lookup alphabet c)) (digit_of (lookup alphabet d)) (digits s) (digits t)
            e
        ∙ ap digit_of at'

-- A first digit that is not zero.
abbrev pub Leads : Text → Type 0
Leads [] = ⊥
Leads (ch ∷ _) = ch ≢ b'1'

lookup_one : lookup alphabet b'1' ≡ some 0
unfolding lookup
lookup_one = refl

first_digit : (ch i : ℕ) → lookup alphabet ch ≡ some i → ch ≢ b'1' → 0 < i
first_digit ch zero at other = elim (other (lookup-injective alphabet ch b'1' 0 at lookup_one)) [ ]
first_digit ch (suc i) at other = omega arith

Leads-Proper : (s : Text) → Known s → Leads s → Proper (reversed (digits s))
unfolding reversed
Leads-Proper [] k l = elim l [ ]
Leads-Proper (ch ∷ s) ((i, at), k) l =
    Proper-append (reversed (digits s)) (digit_of (lookup alphabet ch))
      (subst (λ o. 0 < digit_of o) (sym at) (first_digit ch i at l))

value-digits : (s : Text) → base58_from 0 s ≡ value (reversed (digits s))
value-digits s =
    base58_from-number 0 s
    ∙ ap (λ l. number 0 l) (sym (reversed_twice (digits s)))
    ∙ number-reversed (reversed (digits s))

-- Two texts of known characters that do not start with the digit zero and denote one number are
-- the same text.
pub base58_from-injective :
    (s t : Text) → Known s → Known t → Leads s → Leads t → base58_from 0 s ≡ base58_from 0 t → s ≡ t
base58_from-injective s t a b l m e = digits-injective s t a b (
    sym (reversed_twice (digits s))
    ∙ ap reversed (
        value-injective (reversed (digits s)) (reversed (digits t))
          (Small-reversed (digits s) (digits-Small s a))
          (Small-reversed (digits t) (digits-Small t b)) (Leads-Proper s a l) (Leads-Proper t b m)
          (sym (value-digits s) ∙ e ∙ value-digits t))
    ∙ reversed_twice (digits t))

clash : (ch : ℕ) (out : List ℕ) → Path (Result ℕ (List ℕ)) (err ch) (ok out) → ⊥
clash ch out e = cc

-- The main loop accepts known characters only.
pub convert-Known : (s : Text) (ds out : List ℕ) → convert s ds ≡ ok out → Known s
unfolding convert
convert-Known [] ds out e = tt
convert-Known (ch ∷ s) ds out e = elim (Option-cases (lookup alphabet ch)) [
  | inl unknown ↦ elim (clash ch out (rw (unknown, convert) at e)) [ ]
  | inr (d, known) ↦ ((d, known), convert-Known s (add_digit ds d) out (rw (known, convert) at e))
]
