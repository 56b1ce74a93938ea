-- ===== src/Mux/Log/Tests.antt =====
-- Logs of numbers, each written as as many bytes.
use marsh.Base.{ℕ, zero, suc, ◌≡◌, refl, true, List, [], ◌∷◌, ◌++◌, some, none, length, take, ap}
use marsh.Base.Results.{ok}
use marsh.Mux.Log.{Serde, encode, append, read, Reading, file_after}
use marsh.Mux.Log.Crash.{IsSerde, is_line, crash_safe}

abbrev ones : ℕ → List ℕ
ones zero = []
ones (suc n) = 1 ∷ ones n

abbrev unary : Serde ℕ
unary = record {
  to_bytes = λ n. 1 ∷ ones n;
  from_bytes = λ bytes. elim bytes [ [] ↦ none | c ∷ rest ↦ some (length rest) ];
}

ones_line : (n : ℕ) → is_line (ones n) ≡ true
ones_line zero = refl
ones_line (suc n) = ones_line n

length-ones : (n : ℕ) → length (ones n) ≡ n
length-ones zero = refl
length-ones (suc n) = ap suc (length-ones n)

unary-IsSerde : IsSerde unary
unary-IsSerde = record {
  one_line = ones_line;
  not_empty = λ n. refl;
  reads_back = λ n. ap some (length-ones n);
}

crash_safe_example :
    let file = encode unary (3 ∷ []) ++ take 4 (encode unary (1 ∷ 2 ∷ [])) in
    (k : ℕ) × (reading : Reading ℕ) × (read unary file ≡ ok reading)
    × (reading.records ≡ 3 ∷ [] ++ take k (1 ∷ 2 ∷ []))
    × (file_after reading file ≡ encode unary (3 ∷ [] ++ take k (1 ∷ 2 ∷ [])))
    × (read unary (append unary (5 ∷ []) (file_after reading file))
        ≡ ok (record { records = (3 ∷ []) ++ take k (1 ∷ 2 ∷ []) ++ 5 ∷ []; truncated_to = none }))
crash_safe_example = crash_safe unary unary-IsSerde (3 ∷ []) (1 ∷ 2 ∷ []) (5 ∷ []) 4
