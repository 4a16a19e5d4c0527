-- ===== src/Parser/Examples.antt =====
-- The parser over a reader of one header field.
use mathlib.Core.List.{append_assoc, append-nil}
use shield_agent.Prelude.{
  ℕ, ◌+◌, ◌-◌, ◌*◌, ◌≤◌, ◌==◌, ◌≡◌, refl, ap, sym, true, false, inl, inr, Option, none, some, List,
  [], ◌∷◌, ◌++◌, Text, codes, has_prefix, length, drop, arith, Bool-cases, if◌then◌else◌,
}
use shield_agent.Prelude.Int.{ℤ, pos}
use shield_agent.Pipeline.{JsonReader}
use shield_agent.Parser.{HeaderRead, at_end, malformed, fields, at_eof, read_all}
use shield_agent.Parser.Framed.{
  Frame, IsDigits, Reads, Consumes, stream_of, raw_messages, read_all-stream_of, length-drop,
}

abbrev reader : JsonReader
reader = record {
  is_object = λ body. true;
  has_method = λ body. false;
  as_request = λ body. none;
  as_response = λ body. none;
}

abbrev decimal : ℕ → Text → ℕ
decimal n [] = n
decimal n (c ∷ s) = decimal (n * 10 + (c - 48)) s

abbrev atoi : Text → Option ℤ
atoi t = some (pos (decimal 0 t))

-- The digits at the front, and what follows the blank line after them
abbrev size_line : Text → Text → HeaderRead
size_line size [] = malformed
size_line size (c ∷ s) = elim (c == 13) [
  | true ↦ fields size (drop 3 s)
  | false ↦ size_line (size ++ c ∷ []) s
]

abbrev one_field : Text → HeaderRead
one_field [] = at_end
one_field (c ∷ s) =
    if has_prefix (c ∷ s) (codes "Content-Length: ") then size_line [] (drop 15 s) else malformed

size_line-reads :
    (front size rest : Text)
    → IsDigits size
    → size_line front (size ++ (13 ∷ 10 ∷ 13 ∷ 10 ∷ rest)) ≡ fields (front ++ size) rest
size_line-reads front [] rest h = ap (λ (t : Text). fields t rest) (sym (append-nil front))
size_line-reads front (c ∷ size) rest h =
    ground (
      arith,
      h.0,
      size_line-reads (front ++ c ∷ []) size rest h.1,
      append_assoc front (c ∷ []) size,
    )

one_field-Reads : Reads reader one_field atoi
unfolding has_prefix
one_field-Reads = (refl, λ size rest h. size_line-reads [] size rest h)

size_line-shorter :
    (front s size rest : Text) → size_line front s ≡ fields size rest → length rest ≤ length s
size_line-shorter front [] size rest h = absurd (ground arith)
size_line-shorter front (c ∷ s) size rest h =
    ground (arith, size_line-shorter (front ++ c ∷ []) s size rest, length-drop 3 s)

one_field-Consumes : Consumes reader one_field atoi
one_field-Consumes [] size rest h = absurd (ground arith)
one_field-Consumes (c ∷ s) size rest h =
    elim (Bool-cases (has_prefix (c ∷ s) (codes "Content-Length: "))) [
      | inl ours ↦
          let found : size_line [] (drop 15 s) ≡ fields size rest = ground arith in
          omega (arith, size_line-shorter [] (drop 15 s) size rest found, length-drop 15 s)
      | inr other ↦ absurd (ground arith)
    ]

abbrev frames : List Frame
frames =
    record { size = codes "2"; body = codes "{}" }
    ∷ record { size = codes "1"; body = codes "7" }
    ∷ []

read_all-stream_of_example :
    read_all reader one_field atoi 3 (stream_of frames) ≡ (raw_messages reader frames, at_eof)
read_all-stream_of_example =
    read_all-stream_of reader one_field atoi one_field-Reads 3 frames (omega arith)
      ((λ e. cc, (omega arith, tt), refl), ((λ e. cc, (omega arith, tt), refl), tt))
