-- ===== src/Tests/Runs.antt =====
-- Commands over connections that answer as a Windows host does.
use winsh.Base.{
  ℕ, ◌≤◌, ◌≡◌, ◌≢◌, ◌⊎◌, refl, true, false, none, some, List, [], ◌∷◌, ◌++◌, length, arith,
  if◌then◌else◌, leb, cancellation, unsent,
}
use winsh.Remote.Response.{
  Sink, Response, ReceiveBody, stdout, create_response, command_response, send_response,
  receive_response, signal_response, delete_response, Action, receive_output, finished,
  command_state, put_streams, parse_uint32, digits_value, trim_left, trim_right, parse_response,
  valid_id,
}
use winsh.Remote.Response.Output.{Finished, receive_output-Finished}
use winsh.Remote.Session.{
  Network, create, command, send, receive, signal, delete, reply, lost, History, Session, cleanup,
  start_session_lanes, close_with, close_session, open_shell, start_command, send_input,
  close_delete, close_result, delete_again, expect, is_unsent, post, receive_lane,
}
use winsh.Remote.Session.Fate.{Added, Settled, Untouched, Deleted, start_session_lanes-Settled}
use winsh.Remote.Session.Closing.{is_certain, Closes, close_session-Closes}
use winsh.Remote.Runner.{
  Clock, receive_loop, exited, out_of_rounds, run_with_posters, run_outcome, joined_outcome,
  is_context_done, receive_result, clean_up,
}
use winsh.Remote.Runner.Loop.{Exited, receive_loop_ends, receive_loop-Exited}
use winsh.Remote.Runner.Fate.{run_accounted}
use winsh.Remote.Runner.Completion.{Completed, run-Completed}

abbrev answer : Action → Response
answer action = record {
  action = action;
  fault = none;
  shell_id = 65 ∷ [];
  command_id = 66 ∷ [];
  receive = none;
}

-- The command wrote one byte and ended with exit code 7.
abbrev last_body : ReceiveBody
last_body = record { streams = (stdout, 120 ∷ []) ∷ []; done = true; exit = 32 ∷ 55 ∷ [] }

abbrev last_answer : Response
last_answer = record {
  action = receive_response;
  fault = none;
  shell_id = [];
  command_id = [];
  receive = some last_body;
}

abbrev host : Network
host lane create h = reply (some (answer create_response))
host lane (command id text) h = reply (some (answer command_response))
host lane (send bytes eof) h = reply (some (answer send_response))
host lane receive h = reply (some last_answer)
host lane signal h = reply (some (answer signal_response))
host lane delete h = reply (some (answer delete_response))

-- The reply to Command is lost.
abbrev lossy : Network
lossy lane create h = reply (some (answer create_response))
lossy lane (command id text) h = lost []
lossy lane (send bytes eof) h = lost (unsent ∷ [])
lossy lane receive h = lost (unsent ∷ [])
lossy lane signal h = lost (unsent ∷ [])
lossy lane delete h = reply (some (answer delete_response))

abbrev ten_exchanges : Clock
ten_exchanges h = if leb 10 (length h) then some cancellation else none

abbrev buffer : Sink
buffer = record {
  State = List ℕ;
  out = λ err s bytes. (length bytes, none, s ++ bytes);
  decode = λ text. some text;
}

receive_last : receive_output buffer last_answer [] ≡ (finished 7, 120 ∷ [])
unfolding receive_output put_streams command_state parse_uint32 digits_value trim_left trim_right
receive_last = refl

receive_output-Finished_example : Finished buffer last_answer [] (120 ∷ []) 7
receive_output-Finished_example =
    receive_output-Finished buffer last_answer [] (120 ∷ []) 7 receive_last

abbrev text : List ℕ
text = 100 ∷ 105 ∷ 114 ∷ []

start_session_lanes-Settled_example :
    let r = start_session_lanes lossy (some text) true true [] in Added (Settled r.0) [] r.1
start_session_lanes-Settled_example = start_session_lanes-Settled lossy (some text) true true []

abbrev one_session : Session
one_session = record { shell_id = 65 ∷ []; command_id = 66 ∷ []; has_alternative = true }

close_session-Closes_example :
    let r = close_session lossy false cleanup cleanup true one_session none [] in
    Added (Closes false none r.0) [] r.1
close_session-Closes_example =
    close_session-Closes lossy false cleanup cleanup true one_session none []

done_at_ten : (h : History) → 10 ≤ length h → is_context_done (ten_exchanges h) ≡ true
done_at_ten h le = ground arith

receive_loop_ends_example : (receive_loop host ten_exchanges buffer 11 [] []).0 ≢ out_of_rounds
receive_loop_ends_example =
    receive_loop_ends host ten_exchanges buffer 10 11 [] [] done_at_ten (omega arith)

abbrev after_receive : History
after_receive =
    record { lane = receive_lane; message = receive; outcome = reply (some last_answer) } ∷ []

one_round : receive_loop host ten_exchanges buffer 1 [] [] ≡ (exited 7, after_receive, 120 ∷ [])
unfolding receive_loop post parse_response receive_output put_streams command_state parse_uint32
    digits_value trim_left trim_right
one_round = refl

receive_loop-Exited_example : Exited host ten_exchanges buffer 7 after_receive (120 ∷ [])
receive_loop-Exited_example =
    receive_loop-Exited host ten_exchanges buffer 1 [] after_receive [] (120 ∷ []) 7 one_round

run_accounted_example :
    let r = run_with_posters host ten_exchanges buffer 11 (some text) true true none none [] [] in
    Added
      (λ new.
        (is_certain (run_outcome r.0).1 ≡ true) ⊎ (is_certain (joined_outcome r.0).1 ≡ true)
        → Untouched new ⊎ Deleted new)
      []
      r.1
run_accounted_example =
    run_accounted host ten_exchanges buffer 11 (some text) true true none none [] []

run_fine :
    run_outcome
      (run_with_posters host ten_exchanges buffer 11 (some text) true true none none [] []).0
    ≡ (7, none)
unfolding run_outcome run_with_posters start_session_lanes open_shell start_command send_input
    clean_up close_with close_delete close_result delete_again expect is_unsent receive_result
    receive_loop post parse_response receive_output put_streams command_state parse_uint32
    digits_value trim_left trim_right valid_id
run_fine = refl

run-Completed_example :
    let r = run_with_posters host ten_exchanges buffer 11 (some text) true true none none [] [] in
    Completed host ten_exchanges buffer 7 r.1 r.2
run-Completed_example =
    run-Completed host ten_exchanges buffer 11 (some text) true true none none [] [] 7 run_fine
