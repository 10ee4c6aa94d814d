-- ===== src/Remote/Download/Landing.antt =====
-- internal/remote/download.go: every way in which `downloadLanes` ends, and the local files then.
use winsh.Base.{
  ℕ, suc, ◌≡◌, refl, ◌∙◌, true, false, not, ◌&&◌, ◌||◌, none, some, List, [], ◌++◌, length, ◌==◌,
  if◌then◌else◌, if-elim, case_option-elim,
}
use winsh.Remote.Codec.Paths.{is_separator, trim_end, validate_remote_path}
use winsh.Remote.Runner.{receive_loop, receive_result}
use winsh.Remote.Runner.Fate.{case_started-elim}
use winsh.Remote.Session.{cleanup, History, Session, start_session_lanes, send_input, close_with}
use winsh.Remote.Upload.{plain_failure, remote_exit, empty_output}
use winsh.Remote.Session.{close_again}
use winsh.Remote.Upload.Lanes.{Host, Codecs, refused}
use winsh.Remote.LocalFiles.{Store, set_file, reject_local_link, create_stage, set_file_other}
use winsh.Remote.Download.{
  Order, TrimSpace, copy_base64_lines, received_sink, is_error, judge_reception, result_prefix,
  json_suffix, transfer_control, fetch_record, run_sender, start_sender, locate_metadata,
  download_lanes,
}
use winsh.Remote.Download.Installed.{fetch_record-Effect}
use winsh.Remote.Download.Removal.{
  Sound, refused-Sound, removed-Sound, settled-Sound, given_up-Sound, create_stage-free, Staged,
}

module _ (host : Host) (codecs : Codecs) (trim_space : TrimSpace) (fuel : ℕ) (order : Order)
    (store : Store) where
  rewritten-Staged :
      (stage bytes file : List ℕ)
      → store stage ≡ none
      → Staged stage store (set_file stage (some file) (set_file stage (some bytes) store))
  rewritten-Staged stage bytes file free = record {
    free = free;
    others = λ p other.
        set_file_other stage p (some file) (set_file stage (some bytes) store) other
        ∙ set_file_other stage p (some bytes) store other;
  }

  run_sender-Sound :
      (s : Session) (stage destination metadata id : List ℕ) (h : History)
      → store stage ≡ none
      → order.destination ≡ some destination
      → order.transfer_id ≡ some id
      → (Sound host codecs trim_space fuel order store) (
          run_sender host codecs trim_space fuel order s stage destination metadata id
            (set_file stage (some []) store)
            h)
  unfolding run_sender
  run_sender-Sound s stage destination metadata id h free resolved identified =
      let l =
        receive_loop host.receiving host.clock (received_sink codecs.encoding order.pipe) fuel h
          ([], empty_output 1024) in
      let received = receive_result order.reception.interrupted l.0 in
      let c =
        copy_base64_lines codecs.encoding.base64 order.takes (not (is_error received.1))
          (suc (length l.2.0)) l.2.0 [] in
      let store1 = set_file stage (some c.1) (set_file stage (some []) store) in
      let staged = rewritten-Staged stage [] c.1 free in
      let sent = send_input host.streaming [] true h in
      let fetched =
        fetch_record host codecs trim_space fuel order stage destination (length c.1) id store1
          sent.1 in
      let closed = close_with host.streaming cleanup cleanup false s order.closing sent.1 in
      let late = close_with host.streaming cleanup cleanup false s order.closing fetched.1 in
      case_option-elim (Sound host codecs trim_space fuel order store)
        (judge_reception sent.0 c.0 received l.2.1)
        (λ _.
          (settled-Sound host codecs trim_space fuel order store) stage destination store1 staged
            metadata fetched.0 late.0 late.1 resolved
            (fetch_record-Effect host codecs trim_space fuel order stage destination (length c.1) id
              store1 sent.1 identified))
        (λ f _.
          (given_up-Sound host codecs trim_space fuel order store) stage destination store1 staged
            metadata f (if is_error sent.0 || not c.0 then close_again order.closing else closed.0)
            closed.1)

  start_sender-Sound :
      (destination metadata id : List ℕ) (h : History)
      → order.destination ≡ some destination
      → order.transfer_id ≡ some id
      → (Sound host codecs trim_space fuel order store)
          (start_sender host codecs trim_space fuel order destination metadata id store h)
  unfolding start_sender
  start_sender-Sound destination metadata id h resolved identified =
      let o = start_session_lanes host.streaming order.sender.prepared true true h in
      case_option-elim (Sound host codecs trim_space fuel order store)
        (create_stage destination order.parent order.parent_ok order.random order.opens store)
        (λ _. (refused-Sound host codecs trim_space fuel order store) plain_failure h)
        (λ stage created.
          let free =
            create_stage-free destination order.parent order.parent_ok order.random order.opens
              store stage created in
          let staged : Staged stage store (set_file stage (some []) store) = record {
            free = free;
            others = λ p other. set_file_other stage p (some []) store other;
          } in
          if-elim (Sound host codecs trim_space fuel order store) order.sender.built
            (λ _.
              case_started-elim (Sound host codecs trim_space fuel order store) o.0
                (λ s _.
                  run_sender-Sound s stage destination metadata id o.1 free resolved identified)
                (λ e _.
                  (removed-Sound host codecs trim_space fuel order store) stage destination
                    (set_file stage (some []) store) staged (refused plain_failure) o.1 refl
                    (λ c. absurd (cc))))
            (λ _.
              (removed-Sound host codecs trim_space fuel order store) stage destination
                (set_file stage (some []) store) staged (refused plain_failure) h refl
                (λ c. absurd (cc))))

  locate_metadata-Sound :
      (destination id : List ℕ) (h : History)
      → order.destination ≡ some destination
      → order.transfer_id ≡ some id
      → (Sound host codecs trim_space fuel order store)
          (locate_metadata host codecs trim_space fuel order destination id store h)
  unfolding locate_metadata
  locate_metadata-Sound destination id h resolved identified =
      let temp = transfer_control host codecs trim_space fuel order.temp order.temp_budget h in
      case_option-elim (Sound host codecs trim_space fuel order store) temp.0
        (λ _. (refused-Sound host codecs trim_space fuel order store) plain_failure temp.1)
        (λ (text, code) _.
          if-elim (Sound host codecs trim_space fuel order store) (not (code == 0))
            (λ _. (refused-Sound host codecs trim_space fuel order store) (remote_exit code) temp.1)
            (λ _.
              let metadata =
                trim_end is_separator (trim_space text) ++ (result_prefix ++ id ++ json_suffix) in
              case_option-elim (Sound host codecs trim_space fuel order store)
                (validate_remote_path metadata)
                (λ _. start_sender-Sound destination metadata id temp.1 resolved identified)
                (λ e _.
                  (refused-Sound host codecs trim_space fuel order store) plain_failure temp.1)))

  -- Where `downloadLanes` reports a commit, the record that the fetch command printed describes the
  -- bytes at the destination in count and hash, the result has both, there was no file at the
  -- destination unless it was asked to replace it, and every other file is as it was. Where it
  -- reports none, it returns an error, every file that was there is as it was, and the stage is gone
  -- if its removal succeeds.
  pub download_lanes-Sound :
      (h : History)
      → (Sound host codecs trim_space fuel order store)
          (download_lanes host codecs trim_space fuel order store h)
  unfolding download_lanes
  download_lanes-Sound h =
      if-elim (Sound host codecs trim_space fuel order store)
        (not order.is_download
          || length order.local_path == 0
          || is_error (validate_remote_path order.remote_path))
        (λ _. (refused-Sound host codecs trim_space fuel order store) plain_failure h)
        (λ _.
          case_option-elim (Sound host codecs trim_space fuel order store) order.destination
            (λ _. (refused-Sound host codecs trim_space fuel order store) plain_failure h)
            (λ destination resolved.
              if-elim (Sound host codecs trim_space fuel order store)
                (not (reject_local_link order.link))
                (λ _. (refused-Sound host codecs trim_space fuel order store) plain_failure h)
                (λ _.
                  case_option-elim (Sound host codecs trim_space fuel order store) order.transfer_id
                    (λ _. (refused-Sound host codecs trim_space fuel order store) plain_failure h)
                    (λ id identified.
                      if-elim (Sound host codecs trim_space fuel order store)
                        (order.temp.built && order.lanes_ok)
                        (λ _. locate_metadata-Sound destination id h resolved identified)
                        (λ _.
                          (refused-Sound host codecs trim_space fuel order store) plain_failure
                            h)))))
