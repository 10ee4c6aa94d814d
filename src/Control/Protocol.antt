-- ===== src/Control/Protocol.antt =====
-- internal/control/protocol.go: frames of a version byte, a type byte, a length of four bytes,
-- highest first, and the payload. A byte is a number below 256.

pub mod RoundTrip
pub mod Writing
use winsh.Base.{
  ℕ, zero, suc, ◌+◌, ◌*◌, ◌/◌, ◌%◌, ◌^◌, ◌<◌, ◌≤◌, Bool, ◌&&◌, ◌||◌, not, Option, none, some, List,
  [], ◌∷◌, ◌++◌, length, take, drop, get_or, ltb, leb, ◌==◌, if◌then◌else◌, Error, Writer,
  case_option,
}

abbrev pub protocol_version : ℕ
protocol_version = 1

abbrev pub max_frame_payload : ℕ
max_frame_payload = 64 * 1024

-- `frameRequest` to `frameError`.
abbrev pub frame_request : ℕ
frame_request = 1

abbrev pub frame_stdout : ℕ
frame_stdout = 2

abbrev pub frame_stderr : ℕ
frame_stderr = 3

abbrev pub frame_result : ℕ
frame_result = 4

abbrev pub frame_check : ℕ
frame_check = 5

abbrev pub frame_exit : ℕ
frame_exit = 6

abbrev pub frame_error : ℕ
frame_error = 7

abbrev pub valid_frame_type : ℕ → Bool
valid_frame_type kind = leb frame_request kind && leb kind frame_error

abbrev pub IsByte : ℕ → Type 0
IsByte b = b < 256

-- What a read can fail with: no byte at all, too few bytes, or `ErrProtocol`.
pub data ReadError : Type 0 where
  eof unexpected_eof protocol : ReadError

pub data Read (A : Type 0) : Type 0 where
  ok : A → Read A
  err : ReadError → Read A

infixl 5 ◌>>=◌
abbrev pub ◌>>=◌ : {A B : Type 0} → Read A → (A → Read B) → Read B
ok a >>= f = f a
err e >>= f = err e

abbrev pub guard : Bool → ReadError → Read (Unit {0})
guard b e = if b then ok tt else err e

-- `io.ReadFull` of `n` bytes from what the connection still delivers.
unfoldable pub read_full : ℕ → List ℕ → Read (List ℕ × List ℕ)
read_full n input =
    if leb n (length input)
    then ok (take n input, drop n input)
    else if length input == 0
    then err eof
    else err unexpected_eof

-- `binary.BigEndian.PutUint32` of a value below 2 ^ 32.
unfoldable pub big_endian : ℕ → List ℕ
big_endian n = (n / 2 ^ 24 % 256) ∷ (n / 2 ^ 16 % 256) ∷ (n / 2 ^ 8 % 256) ∷ (n % 256) ∷ []

-- `binary.BigEndian.Uint32` of the bytes from position `i` on.
unfoldable pub big_endian_at : List ℕ → ℕ → ℕ
big_endian_at b i =
    get_or b i 0 * 2 ^ 24
    + get_or b (i + 1) 0 * 2 ^ 16
    + get_or b (i + 2) 0 * 2 ^ 8
    + get_or b (i + 3) 0

unfoldable pub frame_header : ℕ → ℕ → List ℕ
frame_header kind size = protocol_version ∷ (kind % 256) ∷ big_endian size

unfoldable pub frame_allowed : ℕ → List ℕ → Bool
frame_allowed kind payload = valid_frame_type kind && leb (length payload) max_frame_payload

-- `readFrame` on what the connection delivers, with what it leaves.
unfoldable pub read_frame : List ℕ → Read (ℕ × List ℕ × List ℕ)
read_frame input = do
  (header, rest) ← read_full 6 input
  let kind = get_or header 1 0
  let size = big_endian_at header 2
  _ ←
      guard
        (get_or header 0 0 == protocol_version
          && valid_frame_type kind
          && leb size max_frame_payload)
        protocol
  (payload, left) ← read_full size rest
  ok (kind, payload, left)

-- What a write can fail with: the writer's own error, `io.ErrShortWrite` or `ErrProtocol`.
pub data WriteError : Type 0 where
  writer_error : Error → WriteError
  short_write bad_frame : WriteError

module _ (w : Writer) where
  open w use {State, write}

  -- `writeAll`. Each round takes a byte at least, so `length data` rounds are enough.
  unfoldable pub write_rounds : ℕ → State → List ℕ → Option WriteError × State
  write_rounds fuel s [] = (none, s)
  write_rounds zero s (b ∷ bytes) = (some short_write, s)
  write_rounds (suc fuel) s (b ∷ bytes) =
      let r = write s (b ∷ bytes) in
      let again = write_rounds fuel r.state (drop r.count (b ∷ bytes)) in
      case_option r.failure
        (if r.count == 0 || ltb (length (b ∷ bytes)) r.count
          then (some short_write, r.state)
          else again)
        (λ e. (some (writer_error e), r.state))

  unfoldable pub write_all : State → List ℕ → Option WriteError × State
  write_all s bytes = write_rounds (length bytes) s bytes

  -- `writeFrame`
  unfoldable pub write_frame : State → ℕ → List ℕ → Option WriteError × State
  write_frame s kind payload =
      if not (frame_allowed kind payload)
      then (some bad_frame, s)
      else let (failed, t) = write_all s (frame_header kind (length payload)) in
        case_option failed (write_all t payload) (λ e. (some e, t))

  -- `framedWriter.Write` in server.go: the data as frames of at most `max_frame_payload` bytes,
  -- with the number of bytes that were taken. A failure cancels the job's
  -- context there. Each frame takes a byte at least.
  unfoldable pub framed_rounds : ℕ → ℕ → State → ℕ → List ℕ → ℕ × Option WriteError × State
  framed_rounds fuel kind s done [] = (done, none, s)
  framed_rounds zero kind s done (b ∷ bytes) = (done, none, s)
  framed_rounds (suc fuel) kind s done (b ∷ bytes) =
      let chunk = take max_frame_payload (b ∷ bytes) in
      let (failed, t) = write_frame s kind chunk in
      let again =
        framed_rounds fuel kind t (done + length chunk) (drop (length chunk) (b ∷ bytes)) in
      case_option failed again (λ e. (done, some e, t))

  unfoldable pub framed_write : ℕ → State → List ℕ → ℕ × Option WriteError × State
  framed_write kind s bytes = framed_rounds (length bytes) kind s 0 bytes
