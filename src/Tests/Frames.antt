-- ===== src/Tests/Frames.antt =====
-- Frames of the control protocol. 4 is the type of a result.
use winsh.Base.{
  ℕ, ◌+◌, ◌<◌, ◌≤◌, ◌≡◌, ◌⊎◌, refl, inl, inr, Bool, true, false, Option, none, some, List, [], ◌∷◌,
  ◌++◌, length, take, arith, All, if◌then◌else◌, Writer, ◌==◌,
}
use winsh.Control.Protocol.{
  IsByte, ok, err, eof, unexpected_eof, frame_result, frame_stdout, read_frame, frame_header,
  frame_allowed, big_endian, write_frame, read_full, big_endian_at, framed_write,
}
use winsh.Control.Protocol.RoundTrip.{
  frame_bytes, read_frame-frame_bytes, read_frame_only, read_frame_truncated,
}
use winsh.Control.Protocol.Writing.{Delivers, Framed, write_frame-Delivers, framed_write-Framed}

abbrev pub hello : List ℕ
hello = 104 ∷ 105 ∷ []

abbrev hello_frame : List ℕ
hello_frame = 1 ∷ 4 ∷ 0 ∷ 0 ∷ 0 ∷ 2 ∷ 104 ∷ 105 ∷ []

-- A version that is not 1.
other_version : read_frame (2 ∷ 4 ∷ 0 ∷ 0 ∷ 0 ∷ 0 ∷ []) ≡ err winsh.Control.Protocol.protocol
unfolding read_frame read_full big_endian_at
other_version = refl

pub hello_allowed : frame_allowed frame_result hello ≡ true
unfolding frame_allowed
hello_allowed = refl

read_frame-frame_bytes_example :
    read_frame (frame_bytes frame_result hello ++ (9 ∷ [])) ≡ ok (frame_result, hello, 9 ∷ [])
read_frame-frame_bytes_example = read_frame-frame_bytes frame_result hello (9 ∷ []) hello_allowed

hello_read : read_frame (hello_frame ++ (9 ∷ [])) ≡ ok (frame_result, hello, 9 ∷ [])
unfolding read_frame read_full big_endian_at
hello_read = refl

read_frame_only_example :
    (frame_allowed frame_result hello ≡ true)
    × (hello_frame ++ (9 ∷ []) ≡ frame_bytes frame_result hello ++ (9 ∷ []))
read_frame_only_example =
    read_frame_only (hello_frame ++ (9 ∷ [])) frame_result hello (9 ∷ []) (omega arith) hello_read

hello_cut : frame_bytes frame_result hello ≡ (1 ∷ 4 ∷ 0 ∷ []) ++ (0 ∷ (0 ∷ 2 ∷ 104 ∷ 105 ∷ []))
unfolding frame_header big_endian
hello_cut = refl

read_frame_truncated_example :
    (read_frame (1 ∷ 4 ∷ 0 ∷ []) ≡ err eof) ⊎ (read_frame (1 ∷ 4 ∷ 0 ∷ []) ≡ err unexpected_eof)
read_frame_truncated_example =
    read_frame_truncated frame_result 0 hello (1 ∷ 4 ∷ 0 ∷ []) (0 ∷ 2 ∷ 104 ∷ 105 ∷ [])
      hello_allowed hello_cut

-- A connection that takes every byte.
abbrev pub pipe : Writer
pipe = record {
  State = List ℕ;
  write = λ s p. record { count = length p; failure = none; state = s ++ p };
  sent = λ s. s;
  count_le = λ s p. omega arith;
  sent-write = λ s p. winsh.Base.ap (◌++◌ s) (winsh.Base.sym (take_length p));
}
  where
    take_length : (p : List ℕ) → take (length p) p ≡ p
    take_length [] = refl
    take_length (x ∷ p) = winsh.Base.ap (◌∷◌ x) (take_length p)

write_frame-Delivers_example :
    Delivers pipe (frame_bytes frame_result hello) [] (write_frame pipe [] frame_result hello)
unfolding frame_allowed
write_frame-Delivers_example = write_frame-Delivers pipe [] frame_result hello

framed_write-Framed_example :
    Framed pipe frame_stdout hello [] 0 (framed_write pipe frame_stdout [] hello)
framed_write-Framed_example = framed_write-Framed pipe [] frame_stdout hello refl
