-- ===== src/Remote/Download/Copy.antt =====
-- `copyBase64Lines` of internal/remote/transfer_codec.go on the lines that a sender prints.
use winsh.Base.{
  ℕ, zero, suc, ◌+◌, ◌<◌, ◌≤◌, ◌≡◌, refl, ap, ◌∙◌, Bool, true, false, ◌||◌, Option, some, List, [],
  ◌∷◌, ◌++◌, length, drop, All, ltb, ◌==◌, arith,
}
use mathlib.Core.List.{append_assoc, append-nil}
use winsh.Remote.Codec.Lines.{cr, lf, SplitAnswer, split_crlf_lines, scan}
use winsh.Remote.Codec.Lines.Split.{NoCr, split_line}
use winsh.Remote.Download.{copy_base64_lines}

-- The chunks of a file, each as a line that ends in CRLF.
unfoldable pub sent_lines : (List ℕ → List ℕ) → List (List ℕ) → List ℕ
sent_lines encode [] = []
sent_lines encode (chunk ∷ chunks) = encode chunk ++ (cr ∷ lf ∷ sent_lines encode chunks)

unfoldable pub joined : List (List ℕ) → List ℕ
joined [] = []
joined (chunk ∷ chunks) = chunk ++ joined chunks

drop_line : (line rest : List ℕ) → drop (length line + 2) (line ++ (cr ∷ lf ∷ rest)) ≡ rest
drop_line [] rest = refl
drop_line (b ∷ line) rest =
    let n : suc (length line) + 2 ≡ suc (length line + 2) = omega arith in
    ap (λ k. drop k (b ∷ (line ++ (cr ∷ lf ∷ rest)))) n ∙ drop_line line rest

nothing_left : split_crlf_lines 32768 [] true ≡ SplitAnswer.more
unfolding split_crlf_lines scan
nothing_left = refl

within : (n : ℕ) → n ≤ 32768 → ltb 32768 n ≡ false
within n h = ground arith

or_true : (b : Bool) → (b || true) ≡ true
or_true true = refl
or_true false = refl

-- An encoding in lines of at most 32768 bytes.
pub record Lining (encode : List ℕ → List ℕ) (decode : List ℕ → Option (List ℕ)) (chunk : List ℕ)
    : Type 0 where
  pub back : decode (encode chunk) ≡ some chunk
  pub short : length (encode chunk) ≤ 32768
  pub no_cr : NoCr (encode chunk)

-- Where every write succeeds and the reader ends well, the chunks of a file, printed as Base64
-- lines that fit, are written one behind another, and nothing else is.
pub copy_base64_lines-sent_lines :
    (encode : List ℕ → List ℕ) (decode : List ℕ → Option (List ℕ)) (chunks : List (List ℕ))
    (fuel : ℕ) (done : List ℕ)
    → All (Lining encode decode) chunks
    → length chunks < fuel
    → copy_base64_lines decode (λ _. true) true fuel (sent_lines encode chunks) done
      ≡ (true, done ++ joined chunks)
unfolding copy_base64_lines sent_lines joined
copy_base64_lines-sent_lines encode decode chunks zero done fit lt = absurd (omega arith)
copy_base64_lines-sent_lines encode decode [] (suc fuel) done fit lt =
    rw (nothing_left, append-nil done) refl
copy_base64_lines-sent_lines encode decode (chunk ∷ chunks) (suc fuel) done (fit, fits) lt =
    let rest = sent_lines encode chunks in
    rw
      (
        split_line 32768 true (encode chunk) rest fit.no_cr,
        within (length (encode chunk)) fit.short,
        fit.back,
        or_true (length chunk == 0),
        drop_line (encode chunk) rest,
        copy_base64_lines-sent_lines encode decode chunks fuel (done ++ chunk) fits (omega arith),
      )
      (ap (λ x. (true, x)) (append_assoc done chunk (joined chunks)))
