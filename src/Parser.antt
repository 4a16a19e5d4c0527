-- ===== src/Parser.antt =====
-- The framing by Content-Length of internal/jsonrpc/parser.go; messages in lines are in Pipeline. A
-- stream is the bytes that are left. `read_header` is `(*textproto.Reader).ReadMIMEHeader` with the
-- value that the header has for Content-Length, `atoi` is `strconv.Atoi`.
pub mod Framed
mod Examples
use shield_agent.Prelude.{
  ℕ, zero, suc, Option, none, some, List, [], ◌∷◌, Text, is_empty, leb, length, take, drop,
  if◌then◌else◌,
}
use shield_agent.Prelude.Int.{ℤ, pos, negsuc}
use shield_agent.Pipeline.{Message, JsonReader, parse_raw}

pub data HeaderRead : Type 0 where
  at_end malformed : HeaderRead
  fields : Text → Text → HeaderRead

pub data ParserError : Type 0 where
  reading_headers missing_content_length reading_body : ParserError
  invalid_content_length : Text → ParserError

-- A message with what is left of the stream, `io.EOF`, or another error
pub data Next : Type 0 where
  message : Message → Text → Next
  eof : Next
  failed : ParserError → Next

-- How a loop over `Next` ends
pub data LoopEnd : Type 0 where
  at_eof out_of_fuel : LoopEnd
  with_error : ParserError → LoopEnd

module _ (j : JsonReader) (read_header : Text → HeaderRead) (atoi : Text → Option ℤ) where
  -- `io.ReadFull` into a buffer of that length, and `parseRaw`
  unfoldable pub read_body : ℕ → Text → Next
  unfolding parse_raw
  read_body n rest =
      if leb n (length rest)
      then message (parse_raw j (take n rest)) (drop n rest)
      else failed reading_body

  unfoldable pub read_sized : Text → Text → Next
  unfolding read_body
  read_sized size rest = elim (atoi size) [
    | none ↦ failed (invalid_content_length size)
    | some n ↦ elim n [ pos n ↦ read_body n rest | negsuc _ ↦ failed (invalid_content_length size) ]
  ]

  unfoldable pub next_content_length : Text → Next
  unfolding read_sized is_empty
  next_content_length stream = elim (read_header stream) [
    | at_end ↦ eof
    | malformed ↦ failed reading_headers
    | fields size rest ↦
        if is_empty size then failed missing_content_length else read_sized size rest
  ]

  -- What a caller gets that calls `Next` until the stream ends or an error comes
  unfoldable pub read_all : ℕ → Text → List Message × LoopEnd
  unfolding next_content_length
  read_all zero stream = ([], out_of_fuel)
  read_all (suc fuel) stream = elim (next_content_length stream) [
    | eof ↦ ([], at_eof)
    | failed e ↦ ([], with_error e)
    | message m rest ↦ let (ms, end) = read_all fuel rest in (m ∷ ms, end)
  ]
