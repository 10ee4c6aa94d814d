-- ===== src/Tests/Requests.antt =====
-- A command that reaches an idle master.
use winsh.Base.{ℕ, ◌≡◌, refl, Bool, true, false, none, some, List, [], ◌∷◌, ◌==◌}
use winsh.Control.Protocol.{read_frame, read_full, big_endian_at}
use winsh.Control.Client.{validate_call}
use winsh.Control.Server.{Contexts, new_server, enqueue, admit_job, start}
use winsh.Control.Handler.{
  ControlTarget, Arrival, Payloads, waits_for, check_target, submit, handle_call, handle,
}
use winsh.Control.Handler.Entry.{Answered, handle-Answered}

abbrev target : ControlTarget ℕ
target = record { identity = 7; persist = 60 }

abbrev arrival : Arrival ℕ ℕ
arrival = record {
  request = record { command = 97 ∷ []; is_utf8 = true; has_deadline = true };
  target = target;
  in_time = true;
  call = 5;
}

abbrev payloads : Payloads ℕ ℕ
payloads = record { target_of = λ b. some target; call_of = λ b. some arrival }

abbrev same : ℕ → Bool
same i = i == 7

abbrev live : Contexts
live i = none

-- A Request frame with a payload of one byte.
abbrev request_bytes : List ℕ
request_bytes = 1 ∷ 1 ∷ 0 ∷ 0 ∷ 0 ∷ 1 ∷ 123 ∷ []

request_waits :
    (handle payloads same 60 live 3 false request_bytes new_server).0
    ≡ waits_for (record { id = 3; call = 5 })
unfolding handle handle_call submit check_target validate_call enqueue admit_job start new_server
    read_frame read_full big_endian_at
request_waits = refl

handle-Answered_example :
    let r = handle payloads same 60 live 3 false request_bytes new_server in
    Answered payloads same 60 live 3 false request_bytes new_server r.0 r.1
handle-Answered_example = handle-Answered payloads same 60 live 3 false request_bytes new_server
