-- ===== src/Mux/Log.antt =====
-- shellmux/src/wal.rs, `JsonLog`: an append-only log of one record a line. A file is its bytes. The
-- serializer is a parameter; so is what a line that it cannot read says.
pub mod Crash
pub mod Tests
use marsh.Base.{
  ℕ, ◌≡◌, ◌≢◌, String, Bool, true, false, ◌+◌, List, [], ◌∷◌, ◌++◌, Option, none, some, length,
  is_empty, take, ◌==◌, if◌then◌else◌,
}
use marsh.Base.Results.{Result, ok, err}

abbrev pub newline : ℕ
newline = 10

-- serde_json over the record type of one log.
pub record Serde (R : Type 0) : Type 0 where
  pub to_bytes : R → List ℕ
  pub from_bytes : List ℕ → Option R

module _ {R : Type 0} (serde : Serde R) where
  unfoldable pub encode : List R → List ℕ
  encode [] = []
  encode (r ∷ rs) = serde.to_bytes r ++ (newline ∷ encode rs)

  -- The bytes after `append`: one write for the batch.
  unfoldable pub append : List R → List ℕ → List ℕ
  unfolding encode
  append [] file = file
  append (r ∷ rs) file = file ++ encode (r ∷ rs)

-- The lines of `split_inclusive`: each ends with its newline, but perhaps the last.
abbrev add_byte : ℕ → List (List ℕ) → List (List ℕ)
add_byte c [] = (c ∷ []) ∷ []
add_byte c (line ∷ lines) = (c ∷ line) ∷ lines

unfoldable pub split_inclusive : List ℕ → List (List ℕ)
split_inclusive [] = []
split_inclusive (c ∷ bytes) =
    let lines = split_inclusive bytes in if c == newline then (c ∷ []) ∷ lines else add_byte c lines

unfoldable pub ends_with_newline : List ℕ → Bool
ends_with_newline [] = false
ends_with_newline (c ∷ []) = c == newline
ends_with_newline (c ∷ d ∷ line) = ends_with_newline (d ∷ line)

-- `line[..line.len() - 1]`
unfoldable pub without_last : List ℕ → List ℕ
without_last [] = []
without_last (c ∷ []) = []
without_last (c ∷ d ∷ line) = c ∷ without_last (d ∷ line)

pub data LogError : Type 0 where
  corrupt : List ℕ → LogError

-- What `read` returns, and the length that it truncates the file to, if the last line is torn.
pub record Reading (R : Type 0) : Type 0 where
  pub records : List R
  pub truncated_to : Option ℕ

module _ {R : Type 0} (serde : Serde R) where
  unfoldable pub read_lines : List (List ℕ) → List R → ℕ → Result LogError (Reading R)
  unfolding ends_with_newline without_last
  read_lines [] records durable = ok (record { records = records; truncated_to = none })
  read_lines (line ∷ lines) records durable =
      let line_record = without_last line in
      if ends_with_newline line
      then (if is_empty line_record
          then read_lines lines records (durable + length line)
          else elim (serde.from_bytes line_record) [
            | none ↦ err (corrupt line_record)
            | some r ↦ read_lines lines (records ++ r ∷ []) (durable + length line)
          ])
      else ok (record { records = records; truncated_to = some durable })

  unfoldable pub read : List ℕ → Result LogError (Reading R)
  unfolding read_lines split_inclusive
  read file = read_lines (split_inclusive file) [] 0

-- The file that `read` leaves behind.
abbrev pub file_after : {R : Type 0} → Reading R → List ℕ → List ℕ
file_after reading file = elim reading.truncated_to [ none ↦ file | some n ↦ take n file ]
