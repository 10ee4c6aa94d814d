-- ===== src/Remote/Codec/Lines.antt =====
-- `splitCRLFLines`, `boundedOutput` and `writeAll` of internal/remote/transfer_codec.go. The bytes
-- of a buffer are numbers; CR is 13 and LF is 10.
pub mod Split
use winsh.Base.{
  ℕ, zero, suc, ◌+◌, ◌-◌, Bool, true, false, List, [], ◌∷◌, ◌++◌, length, take, ltb, ◌==◌,
  if◌then◌else◌, Option, none, some,
}

abbrev pub cr : ℕ
cr = 13

abbrev pub lf : ℕ
lf = 10

pub data SplitError : Type 0 where
  line_too_long stray_cr stray_cr_at_eof too_long_without_crlf missing_crlf : SplitError

-- What a `bufio.SplitFunc` answers: a token and how far it goes, a request for more data, or an
-- error.
pub data SplitAnswer : Type 0 where
  token : ℕ → List ℕ → SplitAnswer
  more : SplitAnswer
  failed : SplitError → SplitAnswer

-- The loop over the buffer. `seen` are the bytes before position `i`, which is its length, and
-- `whole` is the buffer.
unfoldable pub scan : ℕ → Bool → List ℕ → ℕ → List ℕ → SplitAnswer
scan max_line at_eof whole i [] =
    if at_eof
    then (if length whole == 0
        then more
        else if ltb max_line (length whole)
        then failed too_long_without_crlf
        else failed missing_crlf)
    else if ltb max_line (length whole)
    then failed too_long_without_crlf
    else more
scan max_line at_eof whole i (b ∷ []) =
    let rest = scan max_line at_eof whole (i + 1) [] in
    if b == cr then (if at_eof then failed stray_cr_at_eof else more) else rest
scan max_line at_eof whole i (b ∷ c ∷ bytes) =
    let rest = scan max_line at_eof whole (i + 1) (c ∷ bytes) in
    if b == cr
    then (if c == lf
        then (if ltb max_line i then failed line_too_long else token (i + 2) (take i whole))
        else failed stray_cr)
    else rest

-- `splitCRLFLines(maxLine)`
unfoldable pub split_crlf_lines : ℕ → List ℕ → Bool → SplitAnswer
split_crlf_lines max_line bytes at_eof = scan max_line at_eof bytes 0 bytes

-- `boundedOutput`, with the bytes that it holds.
pub record BoundedOutput : Type 0 where
  pub held : List ℕ
  pub limit : ℕ

-- Go subtracts here without a bound at 0; `held` never passes the limit, see `Bounded`.
unfoldable pub bounded_write : BoundedOutput → List ℕ → Bool × BoundedOutput
bounded_write b p =
    if ltb (b.limit - length b.held) (length p)
    then (false, b)
    else (true, record b { held = b.held ++ p })
