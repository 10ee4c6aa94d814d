-- ===== src/Remote/Upload/Lanes.antt =====
-- `uploadLanes` and `cleanupRemoteStage` of internal/remote/upload.go: the streaming of a file, the
-- checks of its stage, and what is cleaned up behind it. Each session has posters of its own. The
-- exchanges of the goroutine that receives are listed apart from those of the sender: its answers
-- are a function of them, and there is such a function for every interleaving.
use winsh.Base.{
  ℕ, Bool, true, false, not, ◌&&◌, ◌||◌, Option, none, some, List, [], ◌∷◌, ◌++◌, length, ltb, ◌==◌,
  if◌then◌else◌, case_option, Error, ContextError,
}
use winsh.Remote.Codec.Chunk.{Size, size, failed}
use winsh.Remote.Codec.Paths.{validate_remote_path, stage_path}
use winsh.Remote.Codec.Records.{ℤ, pos, negsuc, Json, Document, read_record}
use winsh.Remote.Response.{same_text}
use winsh.Remote.Session.{
  cleanup, History, Network, Session, start_session_lanes, send_input, close_with, close_again,
}
use winsh.Remote.Runner.{Clock, receive_loop, receive_result, case_started}
use winsh.Remote.Upload.{
  TransferResult, Failure, plain_failure, remote_exit, Encoding, Outputs, output_sink, empty_output,
  trimmed, join_failure, dispatch_finalizer,
}

-- What the reads of a file give: bytes, and in the last one an error, which is `io.EOF` or not.
pub data Source : Type 0 where
  more : List ℕ → Source → Source
  last : List ℕ → Bool → Source

-- The posters of each session, and `ctx.Err()` of each.
pub record Host : Type 0 where
  pub streaming : Network
  pub receiving : Network
  pub finalizing : Network
  pub cleaning : Network
  pub clock : Clock
  -- `streamCtx.Err()`
  pub stopped : History → Bool

-- The code's own libraries: base64 and SHA-256 (in hex), and the decoding of a record.
pub record Codecs : Type 1 where
  pub encoding : Encoding
  pub base64_line : List ℕ → List ℕ
  pub sha256_hex : List ℕ → List ℕ
  pub json : Json
  pub decoder : List ℕ → Document json

-- A script: whether it was built, and what `Command` makes of it.
pub record Script : Type 0 where
  pub built : Bool
  pub prepared : Option (List ℕ)

-- The deadlines of a session: the error with which `receive` leaves before its loop ends, and that
-- of the cleanup budget where the loop does not end within it.
pub record Budget : Type 0 where
  pub interrupted : Option ContextError
  pub joined : Option ContextError

-- The request and what the local machine answers. `source` has the size of the opened file and its
-- reads into a buffer of a given size; `unchanged` says that the stats behind the streaming agree.
pub record Order : Type 0 where
  pub is_upload : Bool
  pub local_path : List ℕ
  pub remote_path : List ℕ
  pub source : Option (ℕ × (ℕ → Source))
  pub transfer_id : Option (List ℕ)
  pub receiver : Script
  pub finalizer : Script
  pub cleaner : Script
  pub lanes_ok : Bool
  pub chunk_limit : Size
  pub unchanged : Bool
  pub reception : Budget
  pub early : Budget
  pub finalization : Budget
  pub removal : Budget
  pub closing : Option ContextError

-- What `uploadLanes` returns.
pub record Transferred : Type 0 where
  pub result : TransferResult
  pub failure : Option Failure
  pub artifacts : List (List ℕ)

abbrev pub nothing : TransferResult
nothing = record { bytes = 0; sha256 = []; committed = false }

abbrev pub refused : Failure → Transferred
refused f = record { result = nothing; failure = some f; artifacts = [] }

abbrev pub is_count : ℕ → ℤ → Bool
is_count n (pos m) = m == n
is_count n (negsuc m) = false

-- "OK: cleaned"
abbrev pub cleaned_text : List ℕ
cleaned_text = 79 ∷ 75 ∷ 58 ∷ 32 ∷ 99 ∷ 108 ∷ 101 ∷ 97 ∷ 110 ∷ 101 ∷ 100 ∷ []

-- `chunkLimit`, which never passes `uploadChunkRaw`.
abbrev pub limited : ℕ → ℕ
limited n = if ltb 32768 n then 32768 else n

abbrev pub case_size {ℓ} : {B : Type ℓ} → Size → B → (ℕ → B) → B
case_size (failed e) x f = x
case_size (size n) x f = f n

module _ (host : Host) (codecs : Codecs) where
  -- The Send of a chunk, where the read gave one.
  unfoldable pub send_chunk : List ℕ → History → Option Error × History
  send_chunk bytes h =
      if length bytes == 0
      then (none, h)
      else send_input host.streaming (codecs.base64_line bytes ++ (13 ∷ 10 ∷ [])) false h

  -- The loop over the reads: what was sent, or none where it failed.
  unfoldable pub stream : Source → List ℕ → History → Option (List ℕ) × History
  stream (more bytes source) sent h =
      let (e, h1) = send_chunk bytes h in
      let again = stream source (sent ++ bytes) h1 in
      if host.stopped h then (none, h) else case_option e again (λ _. (none, h1))
  stream (last bytes is_eof) sent h =
      let (e, h1) = send_chunk bytes h in
      if host.stopped h
      then (none, h)
      else case_option e (if is_eof then some (sent ++ bytes) else none, h1) (λ _. (none, h1))

  -- What the code and the output of the cleanup command mean.
  unfoldable pub is_cleaned : ℕ × Option Error → Outputs → Bool
  is_cleaned (code, err) (out, err_out) =
      case_option err
        (code == 0
          && length err_out.held == 0
          && same_text (trimmed codecs.encoding out) cleaned_text)
        (λ e. false)

  -- `cleanupRemoteStage`: whether it returns nil.
  unfoldable pub cleanup_remote_stage : ℕ → Script → Budget → History → Bool × History
  cleanup_remote_stage fuel script budget h =
      if script.built
      then (let (started, h1) = start_session_lanes host.cleaning script.prepared true true h in
          case_started started
            (λ s.
              let (sent_error, h2) = send_input host.cleaning [] true h1 in
              case_option sent_error
                (let (ended, h3, outputs) =
                    receive_loop host.cleaning host.clock (output_sink codecs.encoding) fuel h2
                      (empty_output 256, empty_output 256) in
                  let (e, h4) = close_with host.cleaning cleanup cleanup false s budget.joined h3 in
                  (
                    case_option e (is_cleaned (receive_result budget.interrupted ended) outputs)
                        (λ _. false),
                    h4,
                  ))
                (λ _.
                  (false, (close_with host.cleaning cleanup cleanup false s budget.joined h2).1)))
            (λ _. (false, h1)))
      else (false, h)

  -- The deferred cleanup, from the error of its `close`.
  unfoldable pub settle :
      ℕ
      → Order
      → List ℕ
      → TransferResult × Option Failure
      → Option Error
      → History
      → Transferred × History
  settle fuel order stage (r, f) close_error h =
      let kept : Transferred = record { result = r; failure = f; artifacts = stage ∷ [] } in
      let (cleaned, h1) = cleanup_remote_stage fuel order.cleaner order.removal h in
      if r.committed
      then (record { result = r; failure = join_failure f close_error; artifacts = [] }, h)
      else case_option close_error
          (case_option f (record { result = r; failure = none; artifacts = [] }, h)
            (λ x.
              if x.unknown
              then (kept, h)
              else (if cleaned
                  then (record { result = r; failure = f; artifacts = [] }, h1)
                  else (kept, h1))))
          (λ e. (
            record { result = r; failure = join_failure f close_error; artifacts = stage ∷ [] },
            h,
          ))

  -- The checks behind the end of the stream: none where the stage is verified.
  unfoldable pub check_stage :
      Order → ℕ → List ℕ → List ℕ → ℕ × Option Error → Outputs → Option Failure
  check_stage order initial id sent (code, err) (out, err_out) =
      case_option err
        (if not (code == 0)
          then some (remote_exit code)
          else (if not (length err_out.held == 0 && order.unchanged && length sent == initial)
              then some plain_failure
              else case_option (read_record codecs.json codecs.decoder (some out.held) id)
                  (some plain_failure)
                  (λ rec.
                    if is_count (length sent) rec.record_bytes
                      && same_text rec.record_sha256 (codecs.sha256_hex sent)
                    then none
                    else some plain_failure)))
        (λ e. some plain_failure)

  -- From the verified stage on.
  unfoldable pub commit_stage :
      ℕ → Order → Session → List ℕ → List ℕ → List ℕ → History → Transferred × History
  commit_stage fuel order s stage id sent h =
      let r : TransferResult = record {
        bytes = length sent;
        sha256 = codecs.sha256_hex sent;
        committed = false;
      } in
      let (closed, h1) = close_with host.streaming cleanup cleanup false s order.early.joined h in
      let (r', f, h2) =
        dispatch_finalizer host.finalizing host.clock codecs.encoding fuel order.finalizer.built
          order.finalizer.prepared order.finalization.interrupted order.finalization.joined id r
          h1 in
      case_option closed (settle fuel order stage (r', f) (close_again order.closing) h2)
        (λ e. settle fuel order stage (r, some plain_failure) (close_again order.closing) h1)

  -- A failure of the streaming: the deferred cleanup makes the first call of `closeWith`.
  unfoldable pub give_up : ℕ → Order → Session → List ℕ → Failure → History → Transferred × History
  give_up fuel order s stage f h =
      let (e, h1) = close_with host.streaming cleanup cleanup false s order.closing h in
      settle fuel order stage (nothing, some f) e h1

  -- From the running receiver on: the two goroutines, and the checks of what they give.
  unfoldable pub run_streams :
      ℕ → Order → Session → List ℕ → List ℕ → ℕ → Source → History → Transferred × History
  run_streams fuel order s stage id initial source h =
      let (ended, h', outputs) =
        receive_loop host.receiving host.clock (output_sink codecs.encoding) fuel h
          (empty_output 4096, empty_output 1024) in
      let (streamed, h1) = stream source [] h in
      case_option streamed (give_up fuel order s stage plain_failure h1) (λ sent.
        let (eof_error, h2) = send_input host.streaming [] true h1 in
        case_option eof_error
          (case_option
            (check_stage order initial id sent (receive_result order.reception.interrupted ended)
              outputs)
            (commit_stage fuel order s stage id sent h2) (λ f. give_up fuel order s stage f h2))
          (λ e. give_up fuel order s stage plain_failure h2))

  -- From the start of the receiver on.
  unfoldable pub start_receiver :
      ℕ → Order → List ℕ → List ℕ → ℕ → (ℕ → Source) → History → Transferred × History
  start_receiver fuel order stage id initial source h =
      let (started, h1) = start_session_lanes host.streaming order.receiver.prepared true true h in
      case_started started
        (λ s.
          case_size order.chunk_limit
            (
              refused plain_failure,
              (close_with host.streaming cleanup cleanup false s order.closing h1).1,
            )
            (λ n. run_streams fuel order s stage id initial (source (limited n)) h1))
        (λ e. (refused plain_failure, h1))

  -- `uploadLanes`
  unfoldable pub upload_lanes : ℕ → Order → History → Transferred × History
  upload_lanes fuel order h =
      let no : Transferred × History = (refused plain_failure, h) in
      if not order.is_upload || length order.local_path == 0 || length order.remote_path == 0
      then no
      else case_option (validate_remote_path order.remote_path)
          (case_option order.source no (λ (initial, source). case_option order.transfer_id no (λ id.
            case_option (stage_path order.remote_path id) no (λ stage.
              if order.receiver.built && order.lanes_ok
              then start_receiver fuel order stage id initial source h
              else no))))
          (λ e. no)
