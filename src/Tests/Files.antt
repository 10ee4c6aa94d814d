-- ===== src/Tests/Files.antt =====
-- The upload and the download of a file of five bytes.
use winsh.Base.{
  ℕ, ◌≡◌, refl, true, false, Option, none, some, List, [], ◌∷◌, ◌++◌, arith, All, leb,
  if◌then◌else◌, length,
}
use winsh.Remote.Response.{
  Response, ReceiveBody, stdout, create_response, command_response, send_response, receive_response,
  delete_response, signal_response, Action, parse_response, parse_uint32, trim_left, trim_right,
  digits_value, put_streams, command_state, receive_output, valid_id,
}
use winsh.Remote.Session.{
  Network, Message, create, command, send, receive, signal, delete, reply, post, is_unsent, expect,
  close_result, start_command, open_shell, start_session_lanes, delete_again, close_delete,
  close_with, send_input,
}
use winsh.Remote.Runner.{receive_loop, receive_result, close_quietly, run_with_cleanup}
use winsh.Remote.Codec.Chunk.{size}
use winsh.Remote.Codec.Lines.{bounded_write, split_crlf_lines, scan}
use winsh.Remote.Codec.Paths.{
  validate_remote_path, stage_path, remote_stage_parent, last_separator, components,
  check_components, check_component, is_reserved_stem, is_reserved, stem, trim_end,
}
use winsh.Remote.Codec.Records.{read_record, read_document, read_members, set_field, check_record}
use winsh.Remote.Upload.{Encoding, committed_prefix, judge, close_finalizer, dispatch_finalizer}
use winsh.Remote.Upload.Lanes.{
  more, last, Host, Codecs, Script, Budget, Order, send_chunk, stream, is_cleaned,
  cleanup_remote_stage, settle, check_stage, commit_stage, run_streams, start_receiver,
  upload_lanes,
}
use winsh.Remote.Upload.Memory.{Within, receive_loop-Within}
use winsh.Remote.Upload.{output_sink, empty_output}
use winsh.Remote.LocalFiles
use winsh.Remote.LocalFiles.{
  Store, set_file, absent, reject_local_link, create_rounds, create_stage,
}
use winsh.Remote.Download
use winsh.Remote.Download.{
  copy_base64_lines, judge_reception, transfer_control, install, fetch_record, run_sender,
  start_sender, locate_metadata, download_lanes,
}
use winsh.Remote.Download.Removal.{Sound}
use winsh.Remote.Download.Landing.{download_lanes-Sound}
use winsh.Remote.Download.Copy.{sent_lines, joined, Lining, copy_base64_lines-sent_lines}
use winsh.Tests.Records.{values, document, digest}

-- Base64 is taken to be the identity here.
abbrev plain : Encoding
plain = record { base64 = λ t. some t; runes = λ t. t }

abbrev codecs : Codecs
codecs = record {
  encoding = plain;
  base64_line = λ t. t;
  sha256_hex = λ t. digest;
  json = values;
  decoder = λ t. document;
}

abbrev reply_to : Action → Option ReceiveBody → Response
reply_to action body = record {
  action = action;
  fault = none;
  shell_id = 65 ∷ [];
  command_id = 66 ∷ [];
  receive = body;
}

-- A host whose commands print a text and end with 0.
abbrev answer : List ℕ → Message → Response
answer text create = reply_to create_response none
answer text (command id script) = reply_to command_response none
answer text (send bytes eof) = reply_to send_response none
answer text receive =
    reply_to receive_response
      (some (record { streams = (stdout, text) ∷ []; done = true; exit = 48 ∷ [] }))
answer text signal = reply_to signal_response none
answer text delete = reply_to delete_response none

abbrev prints : List ℕ → Network
prints text lane message h = reply (some (answer text message))

abbrev file_bytes : List ℕ
file_bytes = 1 ∷ 2 ∷ 3 ∷ 4 ∷ 5 ∷ []

abbrev upload_host : Host
upload_host = record {
  streaming = prints [];
  receiving = prints (123 ∷ []);
  finalizing = prints (committed_prefix ++ (97 ∷ []));
  cleaning = prints [];
  clock = λ h. none;
  stopped = λ h. false;
}

abbrev script : Script
script = record { built = true; prepared = some (100 ∷ []) }

abbrev in_time : Budget
in_time = record { interrupted = none; joined = none }

-- C:\a
abbrev remote_file : List ℕ
remote_file = 67 ∷ 58 ∷ 92 ∷ 97 ∷ []

abbrev upload_order : Order
upload_order = record {
  is_upload = true;
  local_path = 97 ∷ [];
  remote_path = remote_file;
  source = some (5, λ limit. more (1 ∷ 2 ∷ 3 ∷ []) (more (4 ∷ 5 ∷ []) (last [] true)));
  transfer_id = some (97 ∷ []);
  receiver = script;
  finalizer = script;
  cleaner = script;
  lanes_ok = true;
  chunk_limit = size 3;
  unchanged = true;
  reception = in_time;
  early = in_time;
  finalization = in_time;
  removal = in_time;
  closing = none;
}

upload_committed : (upload_lanes upload_host codecs 3 upload_order []).0.result.committed ≡ true
unfolding upload_lanes start_receiver run_streams stream send_chunk check_stage commit_stage settle
    dispatch_finalizer close_finalizer judge start_session_lanes open_shell start_command post
    parse_response valid_id send_input expect receive_loop receive_output put_streams command_state
    parse_uint32 receive_result bounded_write close_with close_delete delete_again is_unsent
    close_result validate_remote_path stage_path remote_stage_parent last_separator components
    check_components check_component is_reserved_stem is_reserved stem trim_end read_record
    read_document read_members set_field check_record cleanup_remote_stage is_cleaned trim_left
    trim_right digits_value
upload_committed = refl

-- The first command prints a folder, and the second the record.
abbrev control_prints : Network
control_prints lane message h =
    reply (some (answer (if leb 5 (length h) then 123 ∷ [] else 67 ∷ 58 ∷ 92 ∷ 116 ∷ []) message))

abbrev download_host : Host
download_host = record {
  streaming = prints [];
  receiving = prints (1 ∷ 2 ∷ 3 ∷ 13 ∷ 10 ∷ 4 ∷ 5 ∷ 13 ∷ 10 ∷ []);
  finalizing = control_prints;
  cleaning = prints (79 ∷ 75 ∷ 58 ∷ 32 ∷ 99 ∷ 108 ∷ 101 ∷ 97 ∷ 110 ∷ 101 ∷ 100 ∷ []);
  clock = λ h. none;
  stopped = λ h. false;
}

-- /d/f
abbrev local_file : List ℕ
local_file = 47 ∷ 100 ∷ 47 ∷ 102 ∷ []

abbrev download_order : winsh.Remote.Download.Order
download_order = record {
  is_download = true;
  local_path = local_file;
  remote_path = remote_file;
  force = false;
  destination = some local_file;
  parent = 47 ∷ 100 ∷ [];
  parent_ok = true;
  link = absent;
  transfer_id = some (97 ∷ []);
  temp = script;
  sender = script;
  fetch = script;
  cleaner = script;
  lanes_ok = true;
  random = λ n. some (49 ∷ []);
  opens = λ n. true;
  takes = λ b. true;
  synced = true;
  hashed = true;
  closed = true;
  installs = true;
  removes = true;
  pipe = λ t. true;
  temp_budget = in_time;
  fetch_budget = in_time;
  reception = in_time;
  closing = none;
  removal = in_time;
}

abbrev no_files : Store
no_files p = none

downloaded :
    (download_lanes download_host codecs (λ t. t) 3 download_order no_files []).1 local_file
    ≡ some file_bytes
unfolding download_lanes locate_metadata start_sender run_sender fetch_record install
    transfer_control judge_reception copy_base64_lines winsh.Remote.Download.settle
    winsh.Remote.LocalFiles.commit_stage create_stage create_rounds reject_local_link set_file
    run_with_cleanup close_quietly start_session_lanes open_shell start_command post parse_response
    valid_id send_input expect receive_loop receive_output put_streams command_state parse_uint32
    receive_result bounded_write close_with close_delete delete_again is_unsent close_result
    validate_remote_path components check_components check_component is_reserved_stem is_reserved
    stem trim_end read_record read_document read_members set_field check_record cleanup_remote_stage
    is_cleaned trim_left trim_right digits_value split_crlf_lines scan
downloaded = refl

download_lanes-Sound_example :
    Sound download_host codecs
      (λ t. t)
      3
      download_order
      no_files
      (download_lanes download_host codecs (λ t. t) 3 download_order no_files [])
download_lanes-Sound_example =
    download_lanes-Sound download_host codecs (λ t. t) 3 download_order no_files []

abbrev chunks : List (List ℕ)
chunks = (1 ∷ 2 ∷ 3 ∷ []) ∷ (4 ∷ 5 ∷ []) ∷ []

chunks-Lining : All (Lining (λ t. t) (λ t. some t)) chunks
chunks-Lining = (
  record {
    back = refl;
    short = omega arith;
    no_cr = (
      λ e. absurd (omega (arith, e)),
      (λ e. absurd (omega (arith, e)), (λ e. absurd (omega (arith, e)), tt)),
    );
  },
  (
    record {
      back = refl;
      short = omega arith;
      no_cr = (λ e. absurd (omega (arith, e)), (λ e. absurd (omega (arith, e)), tt));
    },
    tt,
  ),
)

copy_base64_lines-sent_lines_example :
    copy_base64_lines (λ t. some t) (λ b. true) true 3 (sent_lines (λ t. t) chunks) []
    ≡ (true, [] ++ joined chunks)
copy_base64_lines-sent_lines_example =
    copy_base64_lines-sent_lines (λ t. t) (λ t. some t) chunks 3 [] chunks-Lining (omega arith)

receive_loop-Within_example :
    let outputs =
      (receive_loop
        (prints file_bytes)
        (λ h. none)
        (output_sink plain)
        3
        []
        (empty_output 4, empty_output 2)).2 in
    Within 4 outputs.0 × Within 2 outputs.1
receive_loop-Within_example = receive_loop-Within (prints file_bytes) (λ h. none) plain 3 [] 4 2
