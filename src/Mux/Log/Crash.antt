-- ===== src/Mux/Log/Crash.antt =====
-- A log survives a crash at any byte of an append: what is read back is a prefix of the records,
-- the file is cut to exactly those, and the next append goes on from there.
use marsh.Base.{
  ℕ, zero, suc, ◌≡◌, ◌⊎◌, inl, inr, refl, sym, ap, ◌∙◌, Bool, true, false, ◌+◌, List, [], ◌∷◌, ◌++◌,
  Option, none, some, arith, length, length-append, is_empty, take, all, not, ◌==◌, take-append,
}
use mathlib.Core.List.{append-nil, append_assoc}
use marsh.Base.Results.{Result, ok}
use marsh.Mux.Log.{
  newline, Serde, encode, append, split_inclusive, ends_with_newline, without_last, LogError,
  Reading, read_lines, read, file_after,
}

-- No byte of the line is a newline.
abbrev pub is_line : List ℕ → Bool
is_line bytes = all (λ c. not (c == newline)) bytes

-- What the logs rely on in the serializer: a record is one line that is not empty, and reads back.
pub record IsSerde {R : Type 0} (serde : Serde R) : Type 0 where
  pub one_line : (r : R) → is_line (serde.to_bytes r) ≡ true
  pub not_empty : (r : R) → is_empty (serde.to_bytes r) ≡ false
  pub reads_back : (r : R) → serde.from_bytes (serde.to_bytes r) ≡ some r

split_line :
    (line rest : List ℕ)
    → is_line line ≡ true
    → split_inclusive (line ++ (newline ∷ rest)) ≡ (line ++ newline ∷ []) ∷ split_inclusive rest
unfolding split_inclusive
split_line [] rest h = refl
split_line (c ∷ line) rest h = ground (arith, split_line line rest)

split_tail :
    (c : ℕ) (tail : List ℕ)
    → is_line (c ∷ tail) ≡ true
    → split_inclusive (c ∷ tail) ≡ (c ∷ tail) ∷ []
unfolding split_inclusive
split_tail c [] h = ground arith
split_tail c (d ∷ tail) h = ground (arith, split_tail d tail)

ends-line : (line : List ℕ) → ends_with_newline (line ++ newline ∷ []) ≡ true
unfolding ends_with_newline
ends-line [] = refl
ends-line (c ∷ []) = refl
ends-line (c ∷ d ∷ line) = ends-line (d ∷ line)

not-ends :
    (c : ℕ) (tail : List ℕ) → is_line (c ∷ tail) ≡ true → ends_with_newline (c ∷ tail) ≡ false
unfolding ends_with_newline
not-ends c [] h = ground arith
not-ends c (d ∷ tail) h = ground (arith, not-ends d tail)

without_last-line : (line : List ℕ) → without_last (line ++ newline ∷ []) ≡ line
unfolding without_last
without_last-line [] = refl
without_last-line (c ∷ []) = refl
without_last-line (c ∷ d ∷ line) = ap (λ l. c ∷ l) (without_last-line (d ∷ line))

module _ {R : Type 0} (serde : Serde R) (good : IsSerde serde) where
  -- One complete line of a record is read, and adds its length.
  read_lines-record :
      (r : R) (lines : List (List ℕ)) (records : List R) (durable : ℕ)
      → read_lines serde ((serde.to_bytes r ++ newline ∷ []) ∷ lines) records durable
        ≡ read_lines serde lines
            (records ++ r ∷ [])
            (durable + length (serde.to_bytes r ++ newline ∷ []))
  unfolding read_lines
  read_lines-record r lines records durable = rw (
    ends-line (serde.to_bytes r),
    without_last-line (serde.to_bytes r),
    good.not_empty r,
    good.reads_back r,
  )

  torn : List ℕ → ℕ → Option ℕ
  torn [] durable = none
  torn (c ∷ tail) durable = some durable

  read_lines-tail :
      (records : List R) (tail : List ℕ) (durable : ℕ)
      → is_line tail ≡ true
      → read_lines serde (split_inclusive tail) records durable
        ≡ ok (record { records = records; truncated_to = torn tail durable })
  unfolding read_lines torn
  read_lines-tail records [] durable h = unfold split_inclusive in refl
  read_lines-tail records (c ∷ tail) durable h = rw (split_tail c tail h) (rw (not-ends c tail h))

  -- The records of a file, and how much of it is complete lines.
  read-encode :
      (rs records : List R) (tail : List ℕ) (durable : ℕ)
      → is_line tail ≡ true
      → read_lines serde (split_inclusive (encode serde rs ++ tail)) records durable
        ≡ ok (record {
          records = records ++ rs;
          truncated_to = torn tail (durable + length (encode serde rs));
        })
  unfolding encode
  read-encode [] records tail durable h =
      let e : durable + 0 ≡ durable = omega arith in
      rw (append-nil records, e) (read_lines-tail records tail durable h)
  read-encode (r ∷ rs) records tail durable h =
      let line = serde.to_bytes r in
      let n : durable + length (line ++ newline ∷ []) + length (encode serde rs)
          ≡ durable + length (line ++ (newline ∷ encode serde rs)) =
        omega (
          arith,
          length-append line (newline ∷ []),
          length-append line (newline ∷ encode serde rs),
        ) in
      let l : records ++ (r ∷ rs) ≡ (records ++ r ∷ []) ++ rs =
        sym (append_assoc records (r ∷ []) rs) in
      rw
        (
          append_assoc line (newline ∷ encode serde rs) tail,
          split_line line (encode serde rs ++ tail) (good.one_line r),
          read_lines-record r (split_inclusive (encode serde rs ++ tail)) records durable,
          l,
          ← n,
        )
        (read-encode rs (records ++ r ∷ []) tail (durable + length (line ++ newline ∷ [])) h)

  take_line :
      (line rest : List ℕ) (n : ℕ)
      → (take n (line ++ (newline ∷ rest)) ≡ take n line)
        ⊎ ((m : ℕ) × (take n (line ++ (newline ∷ rest)) ≡ line ++ (newline ∷ take m rest)))
  take_line [] rest zero = inl refl
  take_line [] rest (suc m) = inr (m, refl)
  take_line (c ∷ line) rest zero = inl refl
  take_line (c ∷ line) rest (suc n) = elim (take_line line rest n) [
    | inl e ↦ inl (ap (λ l. c ∷ l) e)
    | inr (m, e) ↦ inr (m, ap (λ l. c ∷ l) e)
  ]

  is_line-take : (n : ℕ) (line : List ℕ) → is_line line ≡ true → is_line (take n line) ≡ true
  is_line-take zero line h = refl
  is_line-take (suc n) [] h = refl
  is_line-take (suc n) (c ∷ line) h = ground (arith, is_line-take n line)

  -- The bytes that a crash leaves of a batch are those of some of its records, and an unfinished line.
  take-encode :
      (n : ℕ) (rs : List R)
      → (k : ℕ) × (tail : List ℕ) × (take n (encode serde rs) ≡ encode serde (take k rs) ++ tail)
        × (is_line tail ≡ true)
  unfolding encode
  take-encode zero [] = (0, [], refl, refl)
  take-encode (suc n) [] = (0, [], refl, refl)
  take-encode n (r ∷ rs) = elim (take_line (serde.to_bytes r) (encode serde rs) n) [
    | inl e ↦ (0, take n (serde.to_bytes r), e, is_line-take n (serde.to_bytes r) (good.one_line r))
    | inr (m, e) ↦
        let (k, tail, e', t) = take-encode m rs in
        (
          suc k,
          tail,
          e
              ∙ ap (λ l. serde.to_bytes r ++ (newline ∷ l)) e'
              ∙ sym (append_assoc (serde.to_bytes r) (newline ∷ encode serde (take k rs)) tail),
          t,
        )
  ]

  encode-append : (rs ss : List R) → encode serde (rs ++ ss) ≡ encode serde rs ++ encode serde ss
  unfolding encode
  encode-append [] ss = refl
  encode-append (r ∷ rs) ss =
      ap (λ l. serde.to_bytes r ++ (newline ∷ l)) (encode-append rs ss)
      ∙ sym (append_assoc (serde.to_bytes r) (newline ∷ encode serde rs) (encode serde ss))

  append-encode : (rs ss : List R) → append serde ss (encode serde rs) ≡ encode serde (rs ++ ss)
  unfolding append
  append-encode rs [] = ap (encode serde) (sym (append-nil rs))
  append-encode rs (s ∷ ss) = sym (encode-append rs (s ∷ ss))

  cut :
      (rs : List R) (tail : List ℕ)
      → file_after {R = R}
          (record { records = rs; truncated_to = torn tail (length (encode serde rs)) })
          (encode serde rs ++ tail)
        ≡ encode serde rs
  unfolding torn
  cut rs [] = append-nil (encode serde rs)
  cut rs (c ∷ tail) = take-append (encode serde rs) (c ∷ tail)

  read-file :
      (rs : List R) (tail : List ℕ)
      → is_line tail ≡ true
      → read serde (encode serde rs ++ tail)
        ≡ ok (record { records = rs; truncated_to = torn tail (length (encode serde rs)) })
  unfolding read
  read-file rs tail h =
      let e : 0 + length (encode serde rs) ≡ length (encode serde rs) = omega arith in
      read-encode rs [] tail 0 h
      ∙ ap {B = Result LogError (Reading R)}
          (λ n. ok (record { records = rs; truncated_to = torn tail n })) e

  -- What was appended, all of it on the disk, is what is read.
  pub read-append :
      (rs ss : List R)
      → read serde (append serde ss (encode serde rs))
        ≡ ok (record { records = rs ++ ss; truncated_to = none })
  unfolding torn
  read-append rs ss =
      rw (append-encode rs ss, ← append-nil (encode serde (rs ++ ss)))
        (read-file (rs ++ ss) [] refl)

  -- Whatever number of bytes of an append reaches the disk, reading the log succeeds, gives the old
  -- records and a prefix of the appended ones, leaves a file of exactly these records, and another
  -- append to it reads back whole.
  pub crash_safe :
      (old new later : List R) (n : ℕ)
      → let file = encode serde old ++ take n (encode serde new) in
        (k : ℕ) × (reading : Reading R) × (read serde file ≡ ok reading)
        × (reading.records ≡ old ++ take k new)
        × (file_after reading file ≡ encode serde (old ++ take k new))
        × (read serde (append serde later (file_after reading file))
            ≡ ok (record { records = old ++ take k new ++ later; truncated_to = none }))
  crash_safe old new later n =
      let (k, tail, e, t) = take-encode n new in
      let kept = old ++ take k new in
      let reading : Reading R = record {
        records = kept;
        truncated_to = torn tail (length (encode serde kept));
      } in
      let on_disk : encode serde old ++ take n (encode serde new) ≡ encode serde kept ++ tail =
        ap (λ l. encode serde old ++ l) e
        ∙ sym (append_assoc (encode serde old) (encode serde (take k new)) tail)
        ∙ ap (λ l. l ++ tail) (sym (encode-append old (take k new))) in
      let left : file_after reading (encode serde old ++ take n (encode serde new))
          ≡ encode serde kept =
        ap (file_after reading) on_disk ∙ cut kept tail in
      (
        k,
        reading,
        ap (read serde) on_disk ∙ read-file kept tail t,
        refl,
        left,
        ap (λ f. read serde (append serde later f)) left ∙ read-append kept later,
      )
