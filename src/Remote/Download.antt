-- ===== src/Remote/Download.antt =====
-- internal/remote/download.go, and `copyBase64Lines` of transfer_codec.go: a file is received into a
-- local stage, checked against the sender's record, and committed.
pub mod Copy
pub mod Installed
pub mod Landing
pub mod Removal
use winsh.Base.{
  ℕ, zero, suc, Bool, true, false, not, ◌&&◌, ◌||◌, Option, none, some, List, [], ◌∷◌, ◌++◌, length,
  drop, ◌==◌, if◌then◌else◌, case_option, Error, ContextError,
}
use winsh.Remote.Codec.Lines.{
  BoundedOutput, bounded_write, SplitAnswer, token, more, split_crlf_lines,
}
use winsh.Remote.Codec.Paths.{is_separator, trim_end, validate_remote_path}
use winsh.Remote.Codec.Records.{Json, Document, read_record}
use winsh.Remote.Response.{Sink, same_text}
use winsh.Remote.Session.{
  cleanup, History, Network, Session, start_session_lanes, send_input, close_with, close_again,
}
use winsh.Remote.Runner.{Clock, receive_loop, receive_result, case_started, run_with_cleanup}
use winsh.Remote.Upload.{
  Failure, TransferResult, plain_failure, remote_exit, join_failure, Encoding, Outputs, output_sink,
  empty_output, trimmed, written,
}
use winsh.Remote.Upload.Lanes.{
  Host, Codecs, Script, Budget, Transferred, nothing, refused, is_count, cleanup_remote_stage,
}
use winsh.Remote.LocalFiles.{Store, set_file, Link, reject_local_link, create_stage, commit_stage}

abbrev pub case_answer {ℓ} : {B : Type ℓ} → SplitAnswer → B → B → (ℕ → List ℕ → B) → B
case_answer more x y f = x
case_answer (SplitAnswer.failed e) x y f = y
case_answer (token n line) x y f = f n line

-- `copyBase64Lines`: whether it returns nil, and what was written. `takes` says whether a write
-- behind the bytes so far succeeds, and `clean_end` that the reader ends with `io.EOF`. `maxLine` is
-- the 32768 of the only call. The text is scanned as a whole: the scanner's buffer is left out.
unfoldable pub copy_base64_lines :
    (List ℕ → Option (List ℕ)) → (List ℕ → Bool) → Bool → ℕ → List ℕ → List ℕ → Bool × List ℕ
copy_base64_lines decode takes clean_end zero text done = (false, done)
copy_base64_lines decode takes clean_end (suc fuel) text done =
    case_answer (split_crlf_lines 32768 text true) (clean_end, done) (false, done)
      (λ n line.
        case_option (decode line) (false, done)
          (λ bytes.
            let again =
              copy_base64_lines decode takes clean_end fuel (drop n text) (done ++ bytes) in
            if length bytes == 0 || takes done then again else (false, done)))

-- The request, and what the local machine answers.
pub record Order : Type 0 where
  pub is_download : Bool
  pub local_path : List ℕ
  pub remote_path : List ℕ
  pub force : Bool
  -- The absolute destination with its parent's links resolved, and that parent.
  pub destination : Option (List ℕ)
  pub parent : List ℕ
  pub parent_ok : Bool
  pub link : Link
  pub transfer_id : Option (List ℕ)
  pub temp : Script
  pub sender : Script
  pub fetch : Script
  pub cleaner : Script
  pub lanes_ok : Bool
  -- The names of the stage, and the results of the calls on it.
  pub random : ℕ → Option (List ℕ)
  pub opens : ℕ → Bool
  pub takes : List ℕ → Bool
  pub synced : Bool
  pub hashed : Bool
  pub closed : Bool
  pub installs : Bool
  pub removes : Bool
  -- Whether the pipe between the goroutines takes a write behind the text so far.
  pub pipe : List ℕ → Bool
  pub temp_budget : Budget
  pub fetch_budget : Budget
  pub reception : Budget
  pub closing : Option ContextError
  pub removal : Budget

-- `strings.TrimSpace`
abbrev pub TrimSpace : Type 0
TrimSpace = List ℕ → List ℕ

-- `\winsh-result-` and ".json"
abbrev pub result_prefix : List ℕ
result_prefix = 92 ∷ 119 ∷ 105 ∷ 110 ∷ 115 ∷ 104 ∷ 45 ∷ 114 ∷ 101 ∷ 115 ∷ 117 ∷ 108 ∷ 116 ∷ 45 ∷ []

abbrev pub json_suffix : List ℕ
json_suffix = 46 ∷ 106 ∷ 115 ∷ 111 ∷ 110 ∷ []

-- The text that reached the pipe, and the error output.
abbrev pub Received : Type 0
Received = List ℕ × BoundedOutput

abbrev pub put_received : (List ℕ → Bool) → Bool → Received → List ℕ → ℕ × Option Error × Received
put_received pipe true (text, err) bytes =
    let (ok, err') = bounded_write err bytes in
    let (n, failure) = written bytes ok in (n, failure, (text, err'))
put_received pipe false (text, err) bytes =
    let ok = pipe text in
    let (n, failure) = written bytes ok in (n, failure, ((if ok then text ++ bytes else text), err))

abbrev pub received_sink : Encoding → (List ℕ → Bool) → Sink
received_sink encoding pipe = record {
  State = Received;
  out = put_received pipe;
  decode = encoding.base64;
}

-- The deferred removal of the stage.
abbrev pub remove_stage : Bool → List ℕ → Store → Store
remove_stage removes stage store = if removes then set_file stage none store else store

abbrev pub is_error : {A : Type 0} → Option A → Bool
is_error none = false
is_error (some a) = true

-- What the checks before the fetch of the record say; none where the sender is done.
unfoldable pub judge_reception :
    Option Error → Bool → ℕ × Option Error → BoundedOutput → Option Failure
judge_reception send_error copied (code, err) err_out =
    if is_error send_error || not copied || is_error err
    then some plain_failure
    else (if not (code == 0)
        then some (remote_exit code)
        else (if length err_out.held == 0 then none else some plain_failure))

module _ (host : Host) (codecs : Codecs) (trim_space : TrimSpace) (fuel : ℕ) where
  -- `transferControl`, over the connections of a command: the output and the exit code, or none where it returns an error.
  unfoldable pub transfer_control : Script → Budget → History → Option (List ℕ × ℕ) × History
  transfer_control script budget h =
      let (code, err, h1, outputs) =
        run_with_cleanup host.finalizing host.clock (output_sink codecs.encoding) fuel
          script.prepared true true budget.interrupted budget.joined h
          (empty_output 4096, empty_output 1024) in
      (
        case_option err (if length outputs.1.held == 0 then some (outputs.0.held, code) else none)
            (λ e. none),
        h1,
      )

  -- From the sync of the stage on: the result, and the file system.
  unfoldable pub install :
      Order
      → List ℕ
      → List ℕ
      → ℕ
      → List ℕ
      → List ℕ
      → Store
      → (TransferResult × Option Failure) × Store
  install order stage destination copied control id store =
      let no : (TransferResult × Option Failure) × Store = ((nothing, some plain_failure), store) in
      case_option (read_record codecs.json codecs.decoder (some control) id) no (λ rec.
        case_option (store stage) no (λ file.
          let count = length file in
          let sum = codecs.sha256_hex file in
          if not (order.synced && order.hashed)
          then no
          else (if not (
                count == copied
                && is_count count rec.record_bytes
                && same_text sum rec.record_sha256)
              then no
              else (if not order.closed
                  then no
                  else case_option (commit_stage stage destination order.force order.installs store)
                      no
                      (λ store'. (
                        (record { bytes = count; sha256 = sum; committed = true }, none),
                        store',
                      ))))))

  -- From the sender's end on.
  unfoldable pub fetch_record :
      Order
      → List ℕ
      → List ℕ
      → ℕ
      → List ℕ
      → Store
      → History
      → ((TransferResult × Option Failure) × Store) × History
  fetch_record order stage destination copied id store h =
      if order.fetch.built
      then (let (control, h1) = transfer_control order.fetch order.fetch_budget h in
          (
            case_option control ((nothing, some plain_failure), store)
                (λ (text, code).
                  if code == 0
                  then install order stage destination copied text id store
                  else ((nothing, some (remote_exit code)), store)),
            h1,
          ))
      else (((nothing, some plain_failure), store), h)

  -- The deferred cleanup of the sender, from the error of its `close`.
  unfoldable pub settle :
      Order
      → List ℕ
      → Bool
      → TransferResult × Option Failure
      → Option Error
      → History
      → Transferred × History
  settle order metadata sender_done (r, f) close_error h =
      let kept : Option Failure → Transferred =
        λ g. record { result = r; failure = g; artifacts = metadata ∷ [] } in
      let (cleaned, h1) = cleanup_remote_stage host codecs fuel order.cleaner order.removal h in
      case_option close_error
        (if not sender_done
          then (kept f, h)
          else (if cleaned
              then (record { result = r; failure = f; artifacts = [] }, h1)
              else (kept (join_failure f (some [])), h1)))
        (λ e. (kept (join_failure f (some e)), h))

  -- From the running sender on. `s.close` is called early where the end of the input could not be
  -- sent or the copy failed; the deferred call then makes no exchange.
  unfoldable pub run_sender :
      Order
      → Session
      → List ℕ
      → List ℕ
      → List ℕ
      → List ℕ
      → Store
      → History
      → (Transferred × History) × Store
  run_sender order s stage destination metadata id store h =
      let (ended, h', (text, err_out)) =
        receive_loop host.receiving host.clock (received_sink codecs.encoding order.pipe) fuel h
          ([], empty_output 1024) in
      let received = receive_result order.reception.interrupted ended in
      let (copied, file) =
        copy_base64_lines codecs.encoding.base64 order.takes (not (is_error received.1))
          (suc (length text)) text [] in
      let store1 = set_file stage (some file) store in
      let (send_error, h1) = send_input host.streaming [] true h in
      let early = is_error send_error || not copied in
      case_option (judge_reception send_error copied received err_out)
        (let (done, h2) = fetch_record order stage destination (length file) id store1 h1 in
          let (e, h3) = close_with host.streaming cleanup cleanup false s order.closing h2 in
          (settle order metadata true done.0 e h3, remove_stage order.removes stage done.1))
        (λ f.
          let (e, h2) = close_with host.streaming cleanup cleanup false s order.closing h1 in
          (
            settle order metadata false (nothing, some f)
                (if early then close_again order.closing else e) h2,
            remove_stage order.removes stage store1,
          ))

  -- From the stage's creation on.
  unfoldable pub start_sender :
      Order → List ℕ → List ℕ → List ℕ → Store → History → (Transferred × History) × Store
  start_sender order destination metadata id store h =
      case_option
        (create_stage destination order.parent order.parent_ok order.random order.opens store)
        ((refused plain_failure, h), store)
        (λ stage.
          let store1 = set_file stage (some []) store in
          if order.sender.built
          then (let (started, h1) =
                start_session_lanes host.streaming order.sender.prepared true true h in
              case_started started (λ s. run_sender order s stage destination metadata id store1 h1)
                (λ e. ((refused plain_failure, h1), remove_stage order.removes stage store1)))
          else ((refused plain_failure, h), remove_stage order.removes stage store1))

  -- From the script of the remote folder on.
  unfoldable pub locate_metadata :
      Order → List ℕ → List ℕ → Store → History → (Transferred × History) × Store
  locate_metadata order destination id store h =
      let (temp, h1) = transfer_control order.temp order.temp_budget h in
      case_option temp ((refused plain_failure, h1), store)
        (λ (text, code).
          if not (code == 0)
          then ((refused (remote_exit code), h1), store)
          else (let metadata =
                trim_end is_separator (trim_space text) ++ (result_prefix ++ id ++ json_suffix) in
              case_option (validate_remote_path metadata)
                (start_sender order destination metadata id store h1)
                (λ e. ((refused plain_failure, h1), store))))

  -- `downloadLanes`
  unfoldable pub download_lanes : Order → Store → History → (Transferred × History) × Store
  download_lanes order store h =
      let no : (Transferred × History) × Store = ((refused plain_failure, h), store) in
      if not order.is_download
        || length order.local_path == 0
        || is_error (validate_remote_path order.remote_path)
      then no
      else case_option order.destination no (λ destination.
        if not (reject_local_link order.link)
        then no
        else case_option order.transfer_id no (λ id.
          if order.temp.built && order.lanes_ok
          then locate_metadata order destination id store h
          else no))
