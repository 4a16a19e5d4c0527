-- ===== src/Prelude/Scanner.antt =====
-- `bufio.Scanner` with the split function ScanLines, on the pieces of a stream between its line feeds
-- (the last one, where it is not empty).
-- A piece that does not fit in the buffer with its line feed ends the scan, and so does a failed read
-- (`broken`), which comes after the last piece.
use Prim.Native.Nat.{ℕ, ◌<◌}
use mathlib.Core.Path.{◌≡◌, refl}
use mathlib.Core.Logic.{◌↔◌, inl, inr}
use mathlib.Core.Bool.{Bool, true, false}
use mathlib.Core.List.{List, [], ◌∷◌}
use native.Mathlib.Omega.{arith}
use shield_agent.Prelude.Tests.{if◌then◌else◌, ltb, ◌==◌, Bool-cases}
use shield_agent.Prelude.Lists.{length, All}
use shield_agent.Prelude.Strings.{Text}

-- `dropCR`
unfoldable pub drop_cr : Text → Text
drop_cr [] = []
drop_cr (c ∷ []) = if c == 13 then [] else c ∷ []
drop_cr (c ∷ d ∷ s) = c ∷ drop_cr (d ∷ s)

-- The lines that `Scan` gives, of pieces shorter than the limit
unfoldable pub scan_lines : ℕ → List Text → List Text
unfolding drop_cr
scan_lines limit [] = []
scan_lines limit (line ∷ lines) =
    let rest = scan_lines limit lines in if ltb (length line) limit then drop_cr line ∷ rest else []

-- Whether `Err` is not nil afterwards
unfoldable pub scan_fails : ℕ → Bool → List Text → Bool
scan_fails limit broken [] = broken
scan_fails limit broken (line ∷ lines) =
    let rest = scan_fails limit broken lines in if ltb (length line) limit then rest else true

-- `bufio.MaxScanTokenSize`, the limit of a scanner whose buffer is not set
abbrev pub max_scan_token_size : ℕ
max_scan_token_size = 65536

-- A piece that `Scan` gives as it is
abbrev pub IsScanned : ℕ → Text → Type 0
IsScanned limit line = (length line < limit) × (drop_cr line ≡ line)

pub scan_lines-IsScanned :
    (limit : ℕ) (lines : List Text) → All (IsScanned limit) lines → scan_lines limit lines ≡ lines
unfolding scan_lines
scan_lines-IsScanned limit [] h = refl
scan_lines-IsScanned limit (line ∷ lines) h =
    ground (arith, h.0.0, h.0.1, scan_lines-IsScanned limit lines h.1)

-- The scan ends without an error exactly if no read failed and each piece fits.
pub scan_fails_iff :
    (limit : ℕ) (broken : Bool) (lines : List Text)
    → (scan_fails limit broken lines ≡ false)
      ↔ ((broken ≡ false) × All (λ (line : Text). length line < limit) lines)
unfolding scan_fails
scan_fails_iff limit broken [] = (λ h. (h, tt), λ h. h.0)
scan_fails_iff limit broken (line ∷ lines) =
    let rest = scan_fails_iff limit broken lines in
    (
      λ h. elim (Bool-cases (ltb (length line) limit)) [
        | inl fits ↦ let (works, all) = rest.0 (ground arith) in (works, (ground arith, all))
        | inr long ↦ absurd (ground arith)
      ],
      λ h. let ends = rest.1 (h.0, h.1.1) in let fits = h.1.0 in ground arith,
    )
