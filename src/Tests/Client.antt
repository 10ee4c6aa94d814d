-- ===== src/Tests/Client.antt =====
-- A command that writes to both outputs and ends with 3.
use winsh.Base.{
  ℕ, ◌≡◌, refl, Bool, true, false, none, some, List, [], ◌∷◌, ◌++◌, length, suc, if◌then◌else◌,
  arith,
}
use winsh.Control.Protocol.{
  frame_result, write_frame, write_all, write_rounds, frame_allowed, frame_header, big_endian,
  framed_write, framed_rounds,
}
use winsh.Control.Wire.{no_category, code, WireResult, Decoder, invoked}
use winsh.Control.Client.{Ending, Outputs, Course, invoke_rounds}
use winsh.Control.Client.Carrying.{send_outputs, written_to, Accepting, Undisturbed}
use winsh.Control.Client.Relay.{invoke_rounds-send_outputs}
use winsh.Tests.Frames.{pipe, hello, hello_allowed}
use mathlib.Core.List.{append-nil}
use winsh.Base.{sym}

abbrev three : WireResult
three = record { exit_code = code 3; category = no_category }

abbrev decoder : Decoder
decoder = record { strict = λ b. some three; loose = λ b. some three }

abbrev quiet : Course
quiet = record {
  clock = λ n. none;
  interrupts = λ n. none;
  ending = record { deadline_passed = false; context = none; timed_out = false; marks = [] };
}

abbrev put : Bool → List ℕ × List ℕ → List ℕ → List ℕ × List ℕ
put true (out, err) p = (out, err ++ p)
put false (out, err) p = (out ++ p, err)

abbrev buffers : Outputs
buffers = record { State = List ℕ × List ℕ; write = λ b s p. (length p, none, put b s p) }

abbrev of : Bool → List ℕ × List ℕ → List ℕ
of true (out, err) = err
of false (out, err) = out

quiet-Undisturbed : Undisturbed quiet
quiet-Undisturbed = record { running = λ n. refl; unblocked = λ n. refl }

of_put :
    (b c : Bool) (s : List ℕ × List ℕ) (p : List ℕ)
    → of b (put c s p) ≡ of b s ++ (if winsh.Control.Client.Carrying.same_output b c then p else [])
of_put true true (out, err) p = refl
of_put true false (out, err) p = sym (append-nil err)
of_put false true (out, err) p = sym (append-nil out)
of_put false false (out, err) p = refl

abbrev accepting : Accepting buffers
accepting = record { taken = of; whole = λ b s p. refl; fine = λ b s p. refl; takes = of_put }

abbrev writes : List (Bool × List ℕ)
writes = (false, 97 ∷ 98 ∷ []) ∷ (true, 99 ∷ []) ∷ (false, 100 ∷ []) ∷ []

abbrev wire : List ℕ
wire =
    1 ∷ 2 ∷ 0 ∷ 0 ∷ 0 ∷ 2 ∷ 97 ∷ 98 ∷ 1 ∷ 3 ∷ 0 ∷ 0 ∷ 0 ∷ 1 ∷ 99 ∷ 1 ∷ 2 ∷ 0 ∷ 0 ∷ 0 ∷ 1 ∷ 100 ∷ []

writes_sent : send_outputs pipe [] writes ≡ some wire
unfolding send_outputs framed_write framed_rounds write_frame write_all write_rounds frame_allowed
    frame_header big_endian
writes_sent = refl

result_sent :
    write_frame pipe wire frame_result hello ≡ (none, wire ++ (1 ∷ 4 ∷ 0 ∷ 0 ∷ 0 ∷ 2 ∷ hello))
unfolding write_frame write_all write_rounds frame_allowed frame_header big_endian
result_sent = refl

invoke_rounds-send_outputs_example :
    (stream : List ℕ) × (wire ++ (1 ∷ 4 ∷ 0 ∷ 0 ∷ 0 ∷ 2 ∷ hello) ≡ [] ++ stream)
    × (let r = invoke_rounds decoder quiet buffers (suc (length stream)) 0 stream ([], []) in
        (r.0 ≡ some (invoked (record { exit_code = 3; category = none })))
        × ((b : Bool) → of b r.1 ≡ of b ([], []) ++ written_to b writes))
invoke_rounds-send_outputs_example =
    invoke_rounds-send_outputs decoder quiet buffers quiet-Undisturbed accepting pipe [] wire
      (wire ++ (1 ∷ 4 ∷ 0 ∷ 0 ∷ 0 ∷ 2 ∷ hello)) writes hello 3 ([], []) writes_sent hello_allowed
      result_sent refl (omega arith)
