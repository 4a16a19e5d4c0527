-- ===== src/Parser/Framed.antt =====
-- The loop over the framed messages of a stream ends, and reads back what was framed.
use shield_agent.Prelude.{
  ℕ, zero, suc, ◌<◌, ◌≤◌, ◌≡◌, ◌≢◌, refl, ap, ◌⊎◌, inl, inr, Option, some, List, [], ◌∷◌, ◌++◌,
  Text, codes, is_empty, is_empty_iff, leb, le→leb, length, length-append, take, drop, All, arith,
  Bool-cases, Option-cases,
}
use shield_agent.Prelude.Int.{ℤ, pos, negsuc}
use shield_agent.Pipeline.{Message, JsonReader, parse_raw}
use shield_agent.Parser.{
  HeaderRead, fields, at_end, malformed, Next, ParserError, message, eof, failed, at_eof,
  out_of_fuel, read_body, read_sized, next_content_length, read_all,
}

pub length-drop : (n : ℕ) (xs : Text) → length (drop n xs) ≤ length xs
length-drop zero xs = omega arith
length-drop (suc n) [] = omega arith
length-drop (suc n) (x ∷ xs) = omega (arith, length-drop n xs)

HeaderRead-cases :
    (r : HeaderRead)
    → (r ≡ at_end) ⊎ ((r ≡ malformed) ⊎ ((size rest : Text) × (r ≡ fields size rest)))
HeaderRead-cases at_end = inl refl
HeaderRead-cases malformed = inr (inl refl)
HeaderRead-cases (fields size rest) = inr (inr (size, rest, refl))

Next-cases :
    (n : Next)
    → (n ≡ eof)
      ⊎ (((e : ParserError) × (n ≡ failed e))
          ⊎ ((m : Message) × (rest : Text) × (n ≡ message m rest)))
Next-cases eof = inl refl
Next-cases (failed e) = inr (inl (e, refl))
Next-cases (message m rest) = inr (inr (m, rest, refl))

module _ (j : JsonReader) (read_header : Text → HeaderRead) (atoi : Text → Option ℤ) where
  -- A header takes at least one byte.
  abbrev pub Consumes : Type 0
  Consumes = (s size rest : Text) → read_header s ≡ fields size rest → length rest < length s

  body_shorter :
      (n : ℕ) (s rest : Text) (m : Message)
      → read_body j read_header atoi n s ≡ message m rest
      → length rest ≤ length s
  unfolding read_body
  body_shorter n s rest m h = elim (Bool-cases (leb n (length s))) [
    | inr short ↦ absurd (ground arith)
    | inl enough ↦
        let left : drop n s ≡ rest = ground arith in omega (arith, length-drop n s, ap length left)
  ]

  sized_shorter :
      (size s rest : Text) (m : Message)
      → read_sized j read_header atoi size s ≡ message m rest
      → length rest ≤ length s
  unfolding read_sized
  sized_shorter size s rest m h = elim (Option-cases (atoi size)) [
    | inl e ↦ absurd (ground arith)
    | inr (pos n, e) ↦ body_shorter n s rest m (ground arith)
    | inr (negsuc n, e) ↦ absurd (ground arith)
  ]

  next_shorter :
      Consumes
      → (s rest : Text) (m : Message) → next_content_length j read_header atoi s ≡ message m rest
      → length rest < length s
  unfolding next_content_length
  next_shorter c s rest m h = elim (HeaderRead-cases (read_header s)) [
    | inl e ↦ absurd (ground arith)
    | inr (inl e) ↦ absurd (ground arith)
    | inr (inr (size, body, e)) ↦ elim (Bool-cases (is_empty size)) [
      | inl none_given ↦ absurd (ground arith)
      | inr given ↦ omega (arith, c s size body e, sized_shorter size body rest m (ground arith))
    ]
  ]

  -- With more fuel than the stream has bytes the loop ends by itself, and more fuel changes nothing.
  pub read_all-total :
      Consumes
      → (fuel more : ℕ) (s : Text) → length s < fuel
      → length s < more
      → ((read_all j read_header atoi fuel s).1 ≢ out_of_fuel)
        × (read_all j read_header atoi fuel s ≡ read_all j read_header atoi more s)
  unfolding read_all
  read_all-total c zero more s h k = absurd (omega arith)
  read_all-total c (suc fuel) zero s h k = absurd (omega arith)
  read_all-total c (suc fuel) (suc more) s h k =
      elim (Next-cases (next_content_length j read_header atoi s)) [
        | inl e ↦ (ground arith, ground arith)
        | inr (inl (error, e)) ↦ (ground arith, ground arith)
        | inr (inr (m, rest, e)) ↦
            let shorter = next_shorter c s rest m e in
            let (ends, same) =
              read_all-total c fuel more rest (omega (arith, shorter)) (omega (arith, shorter)) in
            (ground arith, ground arith)
      ]

-- What is written for a message: its size in digits, and its bytes
pub record Frame : Type 0 where
  pub size : Text
  pub body : Text

abbrev pub blank_line : Text
blank_line = 13 ∷ 10 ∷ 13 ∷ 10 ∷ []

abbrev pub header_text : Text → Text → Text
header_text size rest = codes "Content-Length: " ++ (size ++ (blank_line ++ rest))

abbrev pub stream_of : List Frame → Text
stream_of [] = []
stream_of (f ∷ fs) = header_text f.size (f.body ++ stream_of fs)

abbrev pub IsDigits : Text → Type 0
IsDigits = All (λ c. (48 ≤ c) × (c ≤ 57))

abbrev pub raw_messages : JsonReader → List Frame → List Message
unfolding parse_raw
raw_messages j [] = []
raw_messages j (f ∷ fs) = parse_raw j f.body ∷ raw_messages j fs

take-append : (a b : Text) → take (length a) (a ++ b) ≡ a
take-append [] b = refl
take-append (x ∷ a) b = ap (λ (t : Text). x ∷ t) (take-append a b)

drop-append : (a b : Text) → drop (length a) (a ++ b) ≡ b
drop-append [] b = refl
drop-append (x ∷ a) b = drop-append a b

module _ (j : JsonReader) (read_header : Text → HeaderRead) (atoi : Text → Option ℤ) where
  -- The end of the stream, and a header of one field, are read as such.
  abbrev pub Reads : Type 0
  Reads =
      (read_header [] ≡ at_end)
      × ((size rest : Text)
          → IsDigits size
          → read_header (header_text size rest) ≡ fields size rest)

  abbrev pub IsFrame : Frame → Type 0
  IsFrame f = (f.size ≢ []) × IsDigits f.size × (atoi f.size ≡ some (pos (length f.body)))

  next_frame :
      Reads
      → (size body rest : Text) → IsFrame (record { size = size; body = body })
      → next_content_length j read_header atoi (header_text size (body ++ rest))
        ≡ message (parse_raw j body) rest
  unfolding next_content_length read_sized read_body
  next_frame reads size body rest h = ground (
    arith,
    reads.1 size (body ++ rest) h.1,
    h.0,
    h.2,
    is_empty_iff size,
    take-append body rest,
    drop-append body rest,
    length-append body rest,
    le→leb (length body) (length (body ++ rest)),
  )

  -- What is framed with its size in digits is read back, all and in order, and then the end of the
  -- stream; fuel for one round more than there are messages is enough.
  pub read_all-stream_of :
      Reads
      → (fuel : ℕ) (fs : List Frame) → length fs < fuel
      → All IsFrame fs
      → read_all j read_header atoi fuel (stream_of fs) ≡ (raw_messages j fs, at_eof)
  unfolding read_all
  read_all-stream_of reads zero fs h ok = absurd (omega arith)
  read_all-stream_of reads (suc fuel) [] h ok =
      unfold next_content_length in ground (arith, reads.0)
  read_all-stream_of reads (suc fuel) (f ∷ fs) h ok = ground (
    arith,
    next_frame reads f.size f.body (stream_of fs) ok.0,
    read_all-stream_of reads fuel fs (omega arith) ok.1,
  )
