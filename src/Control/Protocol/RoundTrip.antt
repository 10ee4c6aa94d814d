-- ===== src/Control/Protocol/RoundTrip.antt =====
-- internal/control/protocol.go: what `readFrame` makes of the bytes of a frame, and of any others.
use winsh.Base.{
  ℕ, ◌+◌, ◌*◌, ◌/◌, ◌%◌, ◌^◌, ◌<◌, ◌≤◌, ◌≡◌, ◌⊎◌, refl, sym, ap, ◌∙◌, true, ◌&&◌, List, [], ◌∷◌,
  ◌++◌, length, length-append, take, drop, All, take_all, drop_all, take-append-drop, length-take,
  leb, ◌==◌, if◌then◌else◌, arith, inl, inr,
}
use winsh.Control.Protocol.{
  protocol_version, max_frame_payload, valid_frame_type, IsByte, Read, ok, err, protocol, eof,
  unexpected_eof, read_full, big_endian, big_endian_at, frame_header, frame_allowed, read_frame,
}

-- The bytes that `writeFrame` hands to its writer.
abbrev pub frame_bytes : ℕ → List ℕ → List ℕ
frame_bytes kind payload = frame_header kind (length payload) ++ payload

read_full_some :
    (n : ℕ) (input : List ℕ)
    → n ≤ length input
    → read_full n input ≡ ok (take n input, drop n input)
unfolding read_full
read_full_some n input h = ground arith

pub read_full-append : (xs ys : List ℕ) → read_full (length xs) (xs ++ ys) ≡ ok (xs, ys)
unfolding read_full
read_full-append xs ys = ground (arith, length-append xs ys, take_all xs ys, drop_all xs ys)

big_endian_lem : (v k n : ℕ) → n < 2 ^ 32 → big_endian_at (v ∷ k ∷ big_endian n) 2 ≡ n
unfolding big_endian_at big_endian
big_endian_lem v k n h = omega arith

-- `readFrame` after a header of six bytes.
after_header : ℕ → ℕ → ℕ → List ℕ → Read (ℕ × List ℕ × List ℕ)
after_header version kind size rest =
    if version == protocol_version && valid_frame_type kind && leb size max_frame_payload
    then elim (read_full size rest) [
      | ok (payload, left) ↦ ok (kind, payload, left)
      | err e ↦ err e
    ]
    else err protocol

read_frame_header :
    (a b c d e f : ℕ) (rest : List ℕ)
    → read_frame (a ∷ b ∷ c ∷ d ∷ e ∷ f ∷ rest)
      ≡ after_header a b (big_endian_at (a ∷ b ∷ c ∷ d ∷ e ∷ f ∷ []) 2) rest
unfolding read_frame after_header
read_frame_header a b c d e f rest =
    rw (read_full-append (a ∷ b ∷ c ∷ d ∷ e ∷ f ∷ []) rest) (ground arith)

-- `readFrame` returns the type and the payload of a frame that `writeFrame` may write, and leaves
-- what follows the frame.
pub read_frame-frame_bytes :
    (kind : ℕ) (payload rest : List ℕ)
    → frame_allowed kind payload ≡ true
    → read_frame (frame_bytes kind payload ++ rest) ≡ ok (kind, payload, rest)
unfolding frame_header big_endian frame_allowed after_header
read_frame-frame_bytes kind payload rest h =
    let n = length payload in
    read_frame_header protocol_version (kind % 256) (n / 2 ^ 24 % 256) (n / 2 ^ 16 % 256)
      (n / 2 ^ 8 % 256) (n % 256) (payload ++ rest)
    ∙ ground (arith, big_endian_lem 1 (kind % 256) n, read_full-append payload rest)

big_endian-at :
    (a b c d : ℕ)
    → IsByte a
    → IsByte b
    → IsByte c
    → IsByte d
    → big_endian (a * 2 ^ 24 + b * 2 ^ 16 + c * 2 ^ 8 + d) ≡ a ∷ b ∷ c ∷ d ∷ []
unfolding big_endian
big_endian-at a b c d ha hb hc hd = ground arith

read_full-eq-ok :
    (n : ℕ) (input payload left : List ℕ)
    → read_full n input ≡ ok (payload, left)
    → (length payload ≡ n) × (input ≡ payload ++ left)
unfolding read_full
read_full-eq-ok n input payload left h =
    ground (arith, length-take n input, take-append-drop n input)

after_header-eq-ok :
    (version k size : ℕ) (rest : List ℕ) (kind : ℕ) (payload left : List ℕ)
    → after_header version k size rest ≡ ok (kind, payload, left)
    → (version ≡ protocol_version)
      × (k ≡ kind)
      × (frame_allowed kind payload ≡ true)
      × (length payload ≡ size)
      × (rest ≡ payload ++ left)
unfolding after_header frame_allowed
after_header-eq-ok version k size rest kind payload left h =
    ground (arith, read_full-eq-ok size rest payload left)

-- Whatever bytes arrive, a frame that `readFrame` accepts is one that `writeFrame` may write, and
-- the bytes are the ones that `writeFrame` writes for it, followed by what `readFrame` leaves.
pub read_frame_only :
    (input : List ℕ) (kind : ℕ) (payload left : List ℕ)
    → All IsByte input
    → read_frame input ≡ ok (kind, payload, left)
    → (frame_allowed kind payload ≡ true) × (input ≡ frame_bytes kind payload ++ left)
unfolding frame_header
read_frame_only [] kind payload left h e = unfold read_frame read_full in absurd (cc)
read_frame_only (a ∷ []) kind payload left h e = unfold read_frame read_full in absurd (cc)
read_frame_only (a ∷ b ∷ []) kind payload left h e = unfold read_frame read_full in absurd (cc)
read_frame_only (a ∷ b ∷ c ∷ []) kind payload left h e = unfold read_frame read_full in absurd (cc)
read_frame_only (a ∷ b ∷ c ∷ d ∷ []) kind payload left h e =
    unfold read_frame read_full in absurd (cc)
read_frame_only (a ∷ b ∷ c ∷ d ∷ x ∷ []) kind payload left h e =
    unfold read_frame read_full in absurd (cc)
read_frame_only (a ∷ b ∷ c ∷ d ∷ x ∷ y ∷ rest) kind payload left h e =
    let f =
      after_header-eq-ok a b (big_endian_at (a ∷ b ∷ c ∷ d ∷ x ∷ y ∷ []) 2) rest kind payload left
        (sym (read_frame_header a b c d x y rest) ∙ e) in
    let bytes = h.1.1 in
    let size : big_endian (length payload) ≡ c ∷ d ∷ x ∷ y ∷ [] =
      ap big_endian f.3
      ∙ unfold big_endian_at in big_endian-at c d x y bytes.0 bytes.1.0 bytes.1.1.0 bytes.1.1.1.0 in
    (f.2, rw (f.0, f.1, size) (unfold frame_allowed in ground arith))

short_payload :
    (kind x : ℕ) (payload front back : List ℕ)
    → frame_allowed kind payload ≡ true
    → payload ≡ front ++ (x ∷ back)
    → let r = after_header protocol_version (kind % 256) (length payload) front in
      (r ≡ err eof) ⊎ (r ≡ err unexpected_eof)
unfolding after_header read_full frame_allowed
short_payload kind x payload front back h e =
    ground (arith, ap length e, length-append front (x ∷ back))

-- Every proper part of a frame from its beginning makes `readFrame` fail for want of bytes.
pub read_frame_truncated :
    (kind x : ℕ) (payload front back : List ℕ)
    → frame_allowed kind payload ≡ true
    → frame_bytes kind payload ≡ front ++ (x ∷ back)
    → (read_frame front ≡ err eof) ⊎ (read_frame front ≡ err unexpected_eof)
unfolding frame_header big_endian read_frame read_full
read_frame_truncated kind x payload [] back h e = inl refl
read_frame_truncated kind x payload (a ∷ []) back h e = inr refl
read_frame_truncated kind x payload (a ∷ b ∷ []) back h e = inr refl
read_frame_truncated kind x payload (a ∷ b ∷ c ∷ []) back h e = inr refl
read_frame_truncated kind x payload (a ∷ b ∷ c ∷ d ∷ []) back h e = inr refl
read_frame_truncated kind x payload (a ∷ b ∷ c ∷ d ∷ y ∷ []) back h e = inr refl
read_frame_truncated kind x payload (a ∷ b ∷ c ∷ d ∷ y ∷ z ∷ front) back h e =
    let tail : payload ≡ front ++ (x ∷ back) = cc in
    let small : length payload < 2 ^ 32 = unfold frame_allowed in ground arith in
    let size : big_endian_at (a ∷ b ∷ c ∷ d ∷ y ∷ z ∷ []) 2 ≡ length payload =
      cc (big_endian_lem protocol_version (kind % 256) (length payload) small) in
    let version : a ≡ protocol_version = cc in
    let type : b ≡ kind % 256 = cc in
    rw (read_frame_header a b c d y z front, size, version, type)
      (short_payload kind x payload front back h tail)
