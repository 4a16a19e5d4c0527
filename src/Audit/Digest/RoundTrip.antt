-- ===== src/Audit/Digest/RoundTrip.antt =====
-- What is written to the digest file is what is read from it.
use mathlib.Core.List.{append_assoc, append-nil}
use shield_agent.Prelude.{
  ℕ, ◌==◌, ==_iff, ◌≡◌, ◌≢◌, refl, sym, ap, ◌∙◌, false, Option, some, List, [], ◌∷◌, ◌++◌, Text,
  All, is_empty, arith,
}
use shield_agent.Audit.Digest.{
  DigestEntry, split_from, split_lines, write_once, read_entries, read_digest_file,
}

differs : (a b : ℕ) → a ≢ b → (a == b) ≡ false
differs a b h = ground (arith, ==_iff a b)

-- A line runs to its line feed.
split_from-line :
    (front line rest : Text)
    → All (λ c. c ≢ 10) line
    → split_from front (line ++ 10 ∷ rest) ≡ (front ++ line) ∷ split_lines rest
unfolding split_from split_lines
split_from-line front [] rest h = ap (λ (l : Text). l ∷ split_from [] rest) (sym (append-nil front))
split_from-line front (c ∷ line) rest h =
    let other : (c == 10) ≡ false = differs c 10 h.0 in
    rw (other, split_from)
      (split_from-line (front ++ c ∷ []) line rest h.1
        ∙ ap (λ (l : Text). l ∷ split_from [] rest) (append_assoc front (c ∷ []) line))

module _ (marshal : DigestEntry → Text) (unmarshal : Text → Option DigestEntry) where
  -- One write after the other.
  unfoldable pub write_all : Text → List DigestEntry → Text
  unfolding write_once
  write_all file [] = file
  write_all file (entry ∷ entries) = write_all (write_once marshal unmarshal file entry) entries

  -- The text of the entry is one line, and it reads as the entry.
  pub record IsJson (entry : DigestEntry) : Type 0 where
    pub one_line : All (λ c. c ≢ 10) (marshal entry)
    pub not_empty : is_empty (marshal entry) ≡ false
    pub reads : unmarshal (marshal entry) ≡ some entry

  abbrev text_of : List DigestEntry → Text
  text_of [] = []
  text_of (entry ∷ entries) = marshal entry ++ 10 ∷ text_of entries

  write_all-text_of :
      (file : Text) (entries : List DigestEntry) → write_all file entries ≡ file ++ text_of entries
  unfolding write_all write_once
  write_all-text_of file [] = sym (append-nil file)
  write_all-text_of file (entry ∷ entries) =
      write_all-text_of (file ++ (marshal entry ++ 10 ∷ [])) entries
      ∙ append_assoc file (marshal entry ++ 10 ∷ []) (text_of entries)
      ∙ ap (λ (t : Text). file ++ t) (append_assoc (marshal entry) (10 ∷ []) (text_of entries))

  read_entries-text_of :
      (entries : List DigestEntry)
      → All IsJson entries
      → read_entries marshal unmarshal (split_lines (text_of entries)) ≡ some entries
  unfolding read_entries split_lines split_from
  read_entries-text_of [] j = refl
  read_entries-text_of (entry ∷ entries) (j, js) =
      ap (read_entries marshal unmarshal)
        (split_from-line [] (marshal entry) (text_of entries) j.one_line)
      ∙ ground (arith, read_entries-text_of entries js, j.not_empty, j.reads)

  -- From an empty file on, the entries that are written are read back, all and in order, if the text
  -- of each is one line that reads as it.
  pub read_digest_file-write_all :
      (entries : List DigestEntry)
      → All IsJson entries
      → read_digest_file marshal unmarshal (write_all [] entries) ≡ some entries
  unfolding read_digest_file
  read_digest_file-write_all entries j =
      ap (λ (t : Text). read_digest_file marshal unmarshal t) (write_all-text_of [] entries)
      ∙ read_entries-text_of entries j
