-- ===== src/Tests/Transfers.antt =====
-- The stage and the commit of an upload.
use winsh.Base.{
  ℕ, ◌≡◌, refl, true, false, Option, none, some, List, [], ◌∷◌, ◌++◌, arith, length, cancellation,
  leb, if◌then◌else◌,
}
use winsh.Remote.Response.{
  Response, ReceiveBody, stdout, create_response, command_response, send_response, receive_response,
  signal_response, delete_response, Action,
}
use winsh.Remote.Session.{Network, create, command, send, receive, signal, delete, reply}
use winsh.Remote.Runner.{Clock}
use winsh.Remote.Upload.{TransferResult, Encoding, dispatch_finalizer, committed_prefix}
use winsh.Remote.Upload.Commit.{Decided, dispatch_finalizer-Decided}
use winsh.Remote.Codec.Paths.{
  reserved_name, validate_remote_path, stage_path, components, check_components, check_component,
  is_reserved_stem, is_reserved, stem, trim_end,
}
use winsh.Remote.Codec.Paths.Stage.{IsHexText, stage_path-valid}

-- C:\a.b
abbrev destination : List ℕ
destination = 67 ∷ 58 ∷ 92 ∷ 97 ∷ 46 ∷ 98 ∷ []

abbrev transfer_id : List ℕ
transfer_id = 48 ∷ 97 ∷ []

destination_valid : validate_remote_path destination ≡ none
unfolding validate_remote_path components check_components check_component is_reserved_stem
    is_reserved stem trim_end
destination_valid = refl

transfer_id-IsHexText : IsHexText transfer_id
transfer_id-IsHexText = record { nonempty = λ e. absurd (omega (arith, e)); digits = refl }

-- C:\NUL.txt
reserved_refused :
    validate_remote_path (67 ∷ 58 ∷ 92 ∷ 110 ∷ 117 ∷ 108 ∷ 46 ∷ 116 ∷ []) ≡ some reserved_name
unfolding validate_remote_path components check_components check_component is_reserved_stem
    is_reserved stem trim_end
reserved_refused = refl

stage_path-valid_example :
    (stage : List ℕ) × (stage_path destination transfer_id ≡ some stage)
    × (validate_remote_path stage ≡ none)
stage_path-valid_example =
    stage_path-valid destination transfer_id destination_valid transfer_id-IsHexText

abbrev plain : Encoding
plain = record { base64 = λ t. some t; runes = λ t. t }

abbrev reply_to : Action → Option ReceiveBody → Response
reply_to action body = record {
  action = action;
  fault = none;
  shell_id = 65 ∷ [];
  command_id = 66 ∷ [];
  receive = body;
}

abbrev finalizer_host : Network
finalizer_host lane create h = reply (some (reply_to create_response none))
finalizer_host lane (command id text) h = reply (some (reply_to command_response none))
finalizer_host lane (send bytes eof) h = reply (some (reply_to send_response none))
finalizer_host lane receive h = reply (
    some (
      reply_to receive_response (
        some (record {
          streams = (stdout, committed_prefix ++ transfer_id) ∷ [];
          done = true;
          exit = 48 ∷ [];
        }))))
finalizer_host lane signal h = reply (some (reply_to signal_response none))
finalizer_host lane delete h = reply (some (reply_to delete_response none))

abbrev five_exchanges : Clock
five_exchanges h = if leb 5 (length h) then some cancellation else none

abbrev staged : TransferResult
staged = record { bytes = 3; sha256 = 97 ∷ []; committed = false }

dispatch_finalizer-Decided_example :
    Decided finalizer_host five_exchanges plain 6 (some (100 ∷ [])) none [] true transfer_id (
      dispatch_finalizer finalizer_host five_exchanges plain 6 true
        (some (100 ∷ []))
        none
        none
        transfer_id
        staged
        [])
dispatch_finalizer-Decided_example =
    dispatch_finalizer-Decided finalizer_host five_exchanges plain 6 (some (100 ∷ [])) none [] true
      none transfer_id staged refl
