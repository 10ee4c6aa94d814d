-- ===== src/Remote/Codec/Lines/Split.antt =====
-- What `splitCRLFLines` answers on every buffer, and that its answers do not depend on how the
-- stream was cut into buffers.
use winsh.Base.{
  ℕ, ◌+◌, ◌≤◌, ◌<◌, ◌≡◌, ◌≢◌, refl, sym, ◌∙◌, Bool, true, false, List, [], ◌∷◌, ◌++◌, length, take,
  All, take_all, length-append, ltb, ◌==◌, if◌then◌else◌, arith, inl, inr, Bool-cases,
}
use mathlib.Core.List.{append_assoc}
use winsh.Remote.Codec.Lines.{
  cr, lf, token, more, failed, scan, split_crlf_lines, missing_crlf, line_too_long,
  too_long_without_crlf,
}

abbrev pub NoCr : List ℕ → Type 0
NoCr = All (λ b. b ≢ cr)

-- A complete line stands at the front of what is left to scan.
scan_line :
    (max_line : ℕ) (at_eof : Bool) (whole : List ℕ) (i : ℕ) (line rest : List ℕ)
    → NoCr line
    → scan max_line at_eof whole i (line ++ (cr ∷ lf ∷ rest)) ≡ (
        if ltb max_line (i + length line)
        then failed line_too_long
        else token (i + length line + 2) (take (i + length line) whole))
unfolding scan
scan_line max_line at_eof whole i [] rest h = ground arith
scan_line max_line at_eof whole i (b ∷ []) rest h = ground arith
scan_line max_line at_eof whole i (b ∷ c ∷ line) rest h =
    ground (arith, scan_line max_line at_eof whole (i + 1) (c ∷ line) rest h.1)

-- A buffer that begins with a line of at most `max_line` bytes without CR, and CRLF, gives this
-- line, and the scan goes on right behind the CRLF; a longer line is an error. Neither the bytes
-- behind the line nor the end of the stream matter.
pub split_line :
    (max_line : ℕ) (at_eof : Bool) (line rest : List ℕ)
    → NoCr line
    → split_crlf_lines max_line (line ++ (cr ∷ lf ∷ rest)) at_eof
      ≡ (if ltb max_line (length line) then failed line_too_long else token (length line + 2) line)
unfolding split_crlf_lines
split_line max_line at_eof line rest h =
    rw (scan_line max_line at_eof (line ++ (cr ∷ lf ∷ rest)) 0 line rest h)
      (ground (arith, take_all line (cr ∷ lf ∷ rest)))

NoCr-snoc : (xs : List ℕ) (b : ℕ) → NoCr xs → b ≢ cr → NoCr (xs ++ (b ∷ []))
NoCr-snoc [] b h e = (e, tt)
NoCr-snoc (x ∷ xs) b h e = (h.0, NoCr-snoc xs b h.1 e)

length-snoc : (xs : List ℕ) (b : ℕ) → length (xs ++ (b ∷ [])) ≡ length xs + 1
length-snoc xs b = length-append xs (b ∷ [])

-- What a token shows of the buffer.
pub record Line (max_line : ℕ) (whole : List ℕ) (n : ℕ) (t : List ℕ) : Type 0 where
  pub rest : List ℕ
  pub buffer : whole ≡ t ++ (cr ∷ lf ∷ rest)
  pub no_cr : NoCr t
  pub bounded : length t ≤ max_line
  pub advance : n ≡ length t + 2

scan_step :
    (max_line : ℕ) (at_eof : Bool) (whole : List ℕ) (i b c : ℕ) (bytes : List ℕ)
    → (b == cr) ≡ false
    → scan max_line at_eof whole i (b ∷ c ∷ bytes) ≡ scan max_line at_eof whole (i + 1) (c ∷ bytes)
unfolding scan
scan_step max_line at_eof whole i b c bytes h = rw h refl

scan-Line :
    (max_line : ℕ) (at_eof : Bool) (seen bytes : List ℕ) (n : ℕ) (t : List ℕ)
    → NoCr seen
    → scan max_line at_eof (seen ++ bytes) (length seen) bytes ≡ token n t
    → Line max_line (seen ++ bytes) n t
scan-Line max_line at_eof seen [] n t h e = unfold scan in absurd (ground arith)
scan-Line max_line at_eof seen (b ∷ []) n t h e = unfold scan in absurd (ground arith)
scan-Line max_line at_eof seen (b ∷ c ∷ bytes) n t h e = elim (Bool-cases (b == cr)) [
  | inl yes' ↦
      unfold scan in
      let is_cr : b ≡ cr = ground arith in
      let is_lf : c ≡ lf = ground arith in
      let found : (n ≡ length seen + 2) × (t ≡ seen) × (length seen ≤ max_line) =
        ground (arith, take_all seen (b ∷ c ∷ bytes)) in
      record {
        rest = bytes;
        buffer = rw (found.1, is_cr, is_lf) refl;
        no_cr = rw found.1 h;
        bounded = rw found.1 found.2;
        advance = rw found.1 found.0;
      }
  | inr no' ↦ rw (append_assoc seen (b ∷ []) (c ∷ bytes)) at (
      scan-Line max_line at_eof (seen ++ (b ∷ [])) (c ∷ bytes) n t
        (NoCr-snoc seen b h (ground arith))
        (rw (append_assoc seen (b ∷ []) (c ∷ bytes), length-snoc seen b)
          (sym (scan_step max_line at_eof (seen ++ (b ∷ c ∷ bytes)) (length seen) b c bytes no')
            ∙ e)))
]

-- A token of `splitCRLFLines` is the buffer up to its first CR, which LF follows, at most
-- `max_line` bytes long, and the scan goes on right behind the CRLF.
pub split_crlf_lines-Line :
    (max_line : ℕ) (at_eof : Bool) (bytes : List ℕ) (n : ℕ) (t : List ℕ)
    → split_crlf_lines max_line bytes at_eof ≡ token n t
    → Line max_line bytes n t
unfolding split_crlf_lines
split_crlf_lines-Line max_line at_eof bytes n t e = scan-Line max_line at_eof [] bytes n t tt e

scan_eof :
    (max_line : ℕ) (whole : List ℕ) (i : ℕ) (bytes : List ℕ)
    → 0 < length whole
    → scan max_line true whole i bytes ≢ more
unfolding scan
scan_eof max_line whole i [] h e = ground arith
scan_eof max_line whole i (b ∷ []) h e = ground arith
scan_eof max_line whole i (b ∷ c ∷ bytes) h e =
    ground (arith, scan_eof max_line whole (i + 1) (c ∷ bytes) h)

scan-NoCr :
    (max_line : ℕ) (whole : List ℕ) (i : ℕ) (bytes : List ℕ)
    → 0 < length whole
    → NoCr bytes
    → scan max_line true whole i bytes
      ≡ failed (if ltb max_line (length whole) then too_long_without_crlf else missing_crlf)
unfolding scan
scan-NoCr max_line whole i [] h n = ground arith
scan-NoCr max_line whole i (b ∷ []) h n = ground arith
scan-NoCr max_line whole i (b ∷ c ∷ bytes) h n =
    ground (arith, scan-NoCr max_line whole (i + 1) (c ∷ bytes) h n.1)

-- At the end of the stream no answer asks for more data while bytes are left, and bytes with no CR
-- among them are an error: a line too long, or one without its CRLF.
pub split_at_eof :
    (max_line : ℕ) (bytes : List ℕ)
    → 0 < length bytes
    → (split_crlf_lines max_line bytes true ≢ more)
      × (NoCr bytes
          → split_crlf_lines max_line bytes true
            ≡ failed (if ltb max_line (length bytes) then too_long_without_crlf else missing_crlf))
unfolding split_crlf_lines
split_at_eof max_line bytes h =
    (scan_eof max_line bytes 0 bytes h, scan-NoCr max_line bytes 0 bytes h)
