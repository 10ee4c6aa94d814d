-- ===== src/Control/Client/Relay.antt =====
-- internal/control/client.go and `framedWriter` of server.go: what a command writes on the master's
-- side reaches the caller's writers on the client's.
use winsh.Base.{
  ℕ, zero, suc, ◌^◌, ◌<◌, ◌≡◌, sym, ap, ◌∙◌, Bool, true, none, some, List, [], ◌∷◌, ◌++◌, length,
  length-append, if◌then◌else◌, case_option-elim, Writer, arith,
}
use mathlib.Core.List.{append_assoc, append-nil}
use winsh.Control.Protocol.{frame_allowed, frame_result, write_frame, framed_write}
use winsh.Control.Protocol.RoundTrip.{frame_bytes, read_frame-frame_bytes}
use winsh.Control.Protocol.Writing.{frames, concat, framed_write-Framed}
use winsh.Control.Wire.{no_category, code, Decoder, invoked}
use winsh.Control.Client.{Outputs, Course, invoke_rounds, accept_result}
use winsh.Control.Client.Carrying.{
  Undisturbed, Accepting, Passes, carry_nothing, carry_then, carry_as, carry_frames, send_outputs,
  written_to, same_output, output_kind, frame_bytes_pos, answer_sent, in_range, kind_valid,
  same_state,
}

module _ (decoder : Decoder) (course : Course) (outputs : Outputs) (calm : Undisturbed course)
    (accepts : Accepting outputs) where
  open outputs use {State, write}

  -- What the writes of a command put on the connection, the loop passes on.
  record Relays (w : Writer) (s t : w.State) (writes : List (Bool × List ℕ)) : Type 0 where
    stream : List ℕ
    on_wire : w.sent t ≡ w.sent s ++ stream
    passes :
        (m n : ℕ) (rest : List ℕ) (o : State)
        → length stream < m
        → (Passes decoder course outputs calm accepts) m n stream rest o (λ b. written_to b writes)

  send_outputs-Relays :
      (w : Writer) (s t : w.State) (writes : List (Bool × List ℕ))
      → send_outputs w s writes ≡ some t
      → Relays w s t writes
  unfolding send_outputs
  send_outputs-Relays w s t [] e = record {
    stream = [];
    on_wire = ap w.sent (sym (same_state w e)) ∙ sym (append-nil (w.sent s));
    passes = λ m n rest o lt. (carry_nothing decoder course outputs calm accepts) m n rest o;
  }
  send_outputs-Relays w s t ((c, bytes) ∷ writes) e =
      let r = framed_write w (output_kind c) s bytes in
      let f = framed_write-Framed w s (output_kind c) bytes (kind_valid c) in
      case_option-elim (λ o. o ≡ some t → Relays w s t ((c, bytes) ∷ writes)) r.1
        (λ fine sent.
          let k = send_outputs-Relays w r.2 t writes sent in
          let done = f.complete fine in
          let first = frames (output_kind c) f.chunks in
          let whole : bytes ≡ concat f.chunks =
            f.split ∙ ap (◌++◌ (concat f.chunks)) done.0 ∙ append-nil (concat f.chunks) in
          record {
            stream = first ++ k.stream;
            on_wire =
                k.on_wire
                ∙ ap (λ z. z ++ k.stream)
                    (f.delivered ∙ ap (◌++◌ (w.sent s)) (ap (◌++◌ first) done.1 ∙ append-nil first))
                ∙ append_assoc (w.sent s) first k.stream;
            passes = λ m n rest o lt.
                let a =
                  (carry_frames decoder course outputs calm accepts) c f.chunks (k.stream ++ rest) m
                    n o f.fits (omega (arith, length-append first k.stream)) in
                let b =
                  k.passes a.rounds a.number rest a.state
                    (omega (arith, a.left, length-append first k.stream)) in
                (carry_as decoder course outputs calm accepts) m n (first ++ k.stream) rest o _ _
                  ((carry_then decoder course outputs calm accepts) m n first k.stream rest o _ _ a
                    b)
                  (λ z.
                    ap (λ x. (if same_output z c then x else []) ++ written_to z writes)
                      (sym whole));
          })
        (λ x failed q. absurd (cc)) e

  result_frame :
      (m n c : ℕ) (payload : List ℕ) (o : State)
      → frame_allowed frame_result payload ≡ true
      → decoder.strict payload ≡ some (record { exit_code = code c; category = no_category })
      → c < 2 ^ 32
      → invoke_rounds decoder course outputs (suc m) n (frame_bytes frame_result payload ++ []) o
        ≡ (some (invoked (record { exit_code = c; category = none })), o)
  unfolding invoke_rounds accept_result
  result_frame m n c payload o allowed decoded lt = rw (
    read_frame-frame_bytes frame_result payload [] allowed,
    decoded,
    in_range c lt,
    calm.running n,
  )

  ends :
      (m n c : ℕ) (payload : List ℕ) (o : State)
      → 0 < m
      → frame_allowed frame_result payload ≡ true
      → decoder.strict payload ≡ some (record { exit_code = code c; category = no_category })
      → c < 2 ^ 32
      → invoke_rounds decoder course outputs m n (frame_bytes frame_result payload) o
        ≡ (some (invoked (record { exit_code = c; category = none })), o)
  ends zero n c payload o pos allowed decoded lt = absurd (omega arith)
  ends (suc m) n c payload o pos allowed decoded lt =
      ap (λ z. invoke_rounds decoder course outputs (suc m) n z o)
        (sym (append-nil (frame_bytes frame_result payload)))
      ∙ result_frame m n c payload o allowed decoded lt

  -- What a command writes to its output through `framedWriter`, in writes of any length that do not
  -- fail, followed by its result: on a client whose command is neither canceled nor late, and whose
  -- writers take everything, `invokeConn` passes each output on, byte for byte and in order, and
  -- returns the exit code.
  pub invoke_rounds-send_outputs :
      (w : Writer) (s t u : w.State) (writes : List (Bool × List ℕ)) (payload : List ℕ) (c : ℕ)
      (o : State)
      → send_outputs w s writes ≡ some t
      → frame_allowed frame_result payload ≡ true
      → write_frame w t frame_result payload ≡ (none, u)
      → decoder.strict payload ≡ some (record { exit_code = code c; category = no_category })
      → c < 2 ^ 32
      → (stream : List ℕ) × (w.sent u ≡ w.sent s ++ stream)
        × (let r = invoke_rounds decoder course outputs (suc (length stream)) 0 stream o in
            (r.0 ≡ some (invoked (record { exit_code = c; category = none })))
            × ((b : Bool) → accepts.taken b r.1 ≡ accepts.taken b o ++ written_to b writes))
  invoke_rounds-send_outputs w s t u writes payload c o sent allowed answered decoded lt =
      let k = send_outputs-Relays w s t writes sent in
      let last = frame_bytes frame_result payload in
      let stream = k.stream ++ last in
      let fits : length k.stream < suc (length stream) =
        omega (arith, length-append k.stream last) in
      let a = k.passes (suc (length stream)) 0 last o fits in
      let z =
        ends a.rounds a.number c payload a.state
          (omega (arith, a.left, length-append k.stream last, frame_bytes_pos frame_result payload))
          allowed decoded lt in
      let e = a.goes_on ∙ z in
      (
        stream,
        answer_sent w t u payload allowed answered
            ∙ ap (λ x. x ++ last) k.on_wire
            ∙ append_assoc (w.sent s) k.stream last,
        (ap (λ r. r.0) e, λ b. ap (λ r. accepts.taken b r.1) e ∙ a.given b),
      )
