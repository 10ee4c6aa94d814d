-- ===== src/Tests/Codec.antt =====
-- The transfer codec on short inputs.
use winsh.Base.{
  ℕ, ◌+◌, ◌*◌, ◌≡◌, ◌≢◌, refl, true, some, List, [], ◌∷◌, ◌++◌, length, arith, if◌then◌else◌, ltb,
}
use winsh.Remote.Codec.Lines.{
  cr, lf, token, more, failed, split_crlf_lines, scan, missing_crlf, too_long_without_crlf,
}
use winsh.Remote.Codec.Lines.Split.{NoCr, Line, split_crlf_lines-Line, split_at_eof}
use winsh.Remote.Codec.Chunk.{Builder, chunk_size, size, search_rounds}
use winsh.Remote.Codec.Chunk.Search.{IsMonotone, Chosen, chunk_size-Chosen}

abbrev line : List ℕ
line = 65 ∷ 66 ∷ []

two_lines : split_crlf_lines 2 (line ++ (cr ∷ lf ∷ cr ∷ [])) true ≡ token 4 line
unfolding split_crlf_lines scan
two_lines = refl

split_crlf_lines-Line_example : Line 2 (line ++ (cr ∷ lf ∷ cr ∷ [])) 4 line
split_crlf_lines-Line_example =
    split_crlf_lines-Line 2 true (line ++ (cr ∷ lf ∷ cr ∷ [])) 4 line two_lines

split_at_eof_example :
    (split_crlf_lines 2 line true ≢ more)
    × (NoCr line
        → split_crlf_lines 2 line true
          ≡ failed (if ltb 2 (length line) then too_long_without_crlf else missing_crlf))
split_at_eof_example = split_at_eof 2 line (omega arith)

-- A message has ten bytes more than twice its chunk.
abbrev doubling : Builder
doubling n = some (2 * n + 10)

doubling-IsMonotone : IsMonotone doubling
doubling-IsMonotone = record {
  total = λ n. (2 * n + 10, refl);
  monotone = λ m n k l h a b. ground arith;
}

chunk_size_100 : chunk_size 100 (some doubling) ≡ size 45
unfolding chunk_size search_rounds
chunk_size_100 = refl

chunk_size-Chosen_example : Chosen 100 doubling (chunk_size 100 (some doubling))
chunk_size-Chosen_example =
    chunk_size-Chosen 100 doubling (omega arith) (omega arith) doubling-IsMonotone
