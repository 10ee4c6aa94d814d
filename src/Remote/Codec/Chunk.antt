-- ===== src/Remote/Codec/Chunk.antt =====
-- `chunkSize` of internal/remote/transfer_codec.go: a binary search for the largest chunk whose
-- message fits the envelope. The builder belongs to the caller: it gives the length of the message
-- for a chunk of that many zero bytes, or fails.
pub mod Search
use winsh.Base.{
  ℕ, zero, suc, ◌+◌, ◌-◌, ◌/◌, Option, none, some, Bool, leb, ltb, ◌==◌, if◌then◌else◌, case_option,
}

pub data SizeError : Type 0 where
  envelope_not_positive builder_missing builder_empty builder_failed envelope_too_small panicked
        out_of_rounds :
      SizeError

pub data Size : Type 0 where
  size : ℕ → Size
  failed : SizeError → Size

abbrev pub Builder : Type 0
Builder = ℕ → Option ℕ

-- 2 ^ 63: an `int` is below it.
abbrev pub int_limit : ℕ
int_limit = 9223372036854775808

-- `for lo < hi`. The source's loop has no bound on its rounds; `out_of_rounds` is no Go value. A sum
-- from 2 ^ 63 on wraps to a negative middle, and `make` panics.
unfoldable pub search_rounds : ℕ → ℕ → Builder → ℕ → ℕ → Size
search_rounds zero max_envelope builder lo hi = if ltb lo hi then failed out_of_rounds else size lo
search_rounds (suc fuel) max_envelope builder lo hi =
    let mid = (lo + hi + 1) / 2 in
    let fits = search_rounds fuel max_envelope builder mid hi in
    let too_long = search_rounds fuel max_envelope builder lo (mid - 1) in
    if ltb lo hi
    then (if leb int_limit (lo + hi + 1)
        then failed panicked
        else case_option (builder mid) (failed builder_failed)
            (λ n. if leb n max_envelope then fits else too_long))
    else size lo

-- `chunkSize`. An absent builder is `none`. Each round shrinks the range, so its length in rounds
-- is enough.
unfoldable pub chunk_size : ℕ → Option Builder → Size
chunk_size max_envelope builder? =
    if max_envelope == 0
    then failed envelope_not_positive
    else case_option builder? (failed builder_missing) (λ builder.
      case_option (builder 0) (failed builder_empty) (λ _.
        case_option (builder 1) (failed builder_failed) (λ n.
          if ltb max_envelope n
          then failed envelope_too_small
          else search_rounds max_envelope max_envelope builder 1 max_envelope)))
