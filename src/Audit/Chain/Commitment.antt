-- ===== src/Audit/Chain/Commitment.antt =====
-- What the newest hash of a log fixes, and what it does not.
use mathlib.Core.List.{append_assoc}
use shield_agent.Prelude.{
  ◌≡◌, refl, ◌≢◌, ◌∙◌, sym, ap, ◌⊎◌, inl, inr, List, [], ◌∷◌, ◌++◌, Text, codes, ◌=ₜ◌, =ₜ_iff,
  length, arith, Bool-cases, All, drop,
}
use shield_agent.Audit.Row.{Formats, EgressLog}
use shield_agent.Audit.Chain.{canonical_row_hash, join_tab, parts}
use shield_agent.Audit.Chain.Linked.{Linked, tail_of}

-- Two different texts with one digest.
abbrev pub Collision : Formats → Type 0
Collision fm = (s t : Text) × (s ≢ t) × (fm.sha256_hex s ≡ fm.sha256_hex t)

-- A text without a tab.
abbrev pub Tabless : Text → Type 0
Tabless = All (λ c. c ≢ 9)

cut_at_tab : (s t a b : Text) → Tabless s → Tabless t → s ++ 9 ∷ a ≡ t ++ 9 ∷ b → s ≡ t
cut_at_tab [] [] a b hs ht e = refl
cut_at_tab [] (c ∷ t) a b hs ht e = absurd (ht.0 (cc))
cut_at_tab (c ∷ s) [] a b hs ht e = absurd (hs.0 (cc))
cut_at_tab (c ∷ s) (d ∷ t) a b hs ht e = cc (cut_at_tab s t a b hs.1 ht.1 (cc))

join_tab_shift :
    (a b c p : Text) (ps : List Text)
    → join_tab ((a ++ 9 ∷ b) ∷ c ∷ p ∷ ps) ≡ join_tab (a ∷ (b ++ 9 ∷ c) ∷ p ∷ ps)
unfolding join_tab
join_tab_shift a b c p ps = simp append_assoc

module _ (fm : Formats) where
  abbrev Log : Type 0
  Log = EgressLog fm

  -- The text that is hashed for each row.
  unfoldable pub lines : Text → List Log → List Text
  lines start [] = []
  lines start (row ∷ rows) = join_tab (parts fm start row) ∷ lines row.row_hash rows

  same-or-Collision : (s t : Text) → fm.sha256_hex s ≡ fm.sha256_hex t → (s ≡ t) ⊎ Collision fm
  same-or-Collision s t h = elim (Bool-cases (s =ₜ t)) [
    | inl same ↦ inl ((=ₜ_iff s t).0 same)
    | inr other ↦ inr (s, t, (λ e. cc ((=ₜ_iff s t).1 e)), h)
  ]

  prev-parts :
      (s t : Text) (x y : Log)
      → Tabless s
      → Tabless t
      → join_tab (parts fm s x) ≡ join_tab (parts fm t y)
      → s ≡ t
  unfolding parts join_tab
  prev-parts s t x y hs ht e = cut_at_tab s t _ _ hs ht e

  module _ (hex : (t : Text) → Tabless (fm.sha256_hex t)) where
    hash-Tabless :
        (start : Text) (row : Log)
        → row.row_hash ≡ canonical_row_hash fm start row
        → Tabless row.row_hash
    unfolding canonical_row_hash
    hash-Tabless start row e = rw e (hex (join_tab (parts fm start row)))

    commits :
        (s t : Text) (xs ys : List Log)
        → Tabless s
        → Tabless t
        → Linked fm s xs
        → Linked fm t ys
        → length xs ≡ length ys
        → tail_of fm s xs ≡ tail_of fm t ys
        → ((s ≡ t) × (lines s xs ≡ lines t ys)) ⊎ Collision fm
    unfolding lines canonical_row_hash
    commits s t [] [] hs ht lx ly len last = inl (last, refl)
    commits s t [] (y ∷ ys) hs ht lx ly len last = absurd (omega arith)
    commits s t (x ∷ xs) [] hs ht lx ly len last = absurd (omega arith)
    commits s t (x ∷ xs) (y ∷ ys) hs ht (px, hx, lx) (py, hy, ly) len last =
        elim (commits x.row_hash y.row_hash xs ys (hash-Tabless s x hx) (hash-Tabless t y hy) lx ly
          (omega arith) last) [
            | inr c ↦ inr c
            | inl (hash, rest) ↦
                elim (same-or-Collision (join_tab (parts fm s x)) (join_tab (parts fm t y))
                  (sym hx ∙ hash ∙ hy)) [
                    | inr c ↦ inr c
                    | inl text ↦ inl (prev-parts s t x y hs ht text, cc)
                  ]
          ]

    -- Two linked logs of one length that end in one hash were hashed from the same texts, row by
    -- row, or they exhibit a collision of SHA-256. The digest's text has no tab.
    pub tail_of-commits :
        (xs ys : List Log)
        → Linked fm (codes "") xs
        → Linked fm (codes "") ys
        → length xs ≡ length ys
        → tail_of fm (codes "") xs ≡ tail_of fm (codes "") ys
        → (lines (codes "") xs ≡ lines (codes "") ys) ⊎ Collision fm
    tail_of-commits xs ys lx ly len last =
        elim (commits (codes "") (codes "") xs ys tt tt lx ly len last) [
          | inr c ↦ inr c
          | inl (_, same) ↦ inl same
        ]

  -- Two rows that differ only in how a text with a tab is split over the correlation id and the
  -- provider have one hash.
  pub canonical_row_hash_shift :
      (prev a b c : Text) (row : Log)
      → canonical_row_hash fm prev (record row { correlation_id = a ++ 9 ∷ b; provider = c })
        ≡ canonical_row_hash fm prev (record row { correlation_id = a; provider = b ++ 9 ∷ c })
  unfolding canonical_row_hash
  canonical_row_hash_shift prev a b c row =
      ap (λ t. fm.sha256_hex (prev ++ 9 ∷ (fm.format_time row.timestamp ++ 9 ∷ t)))
        (join_tab_shift a b c row.model (drop 5 (parts fm prev row)))
