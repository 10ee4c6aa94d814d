-- ===== src/Remote/Response/Output.antt =====
-- What an answer of `response.receive` shows of the reply and of the caller's writers.
use winsh.Base.{
  ℕ, ◌<◌, ◌≡◌, refl, Bool, true, false, Option, none, some, List, [], ◌∷◌, length, case_option-elim,
  if-elim, subst, ap, ◌^◌, arith, Error,
}
use winsh.Remote.Response.{
  Sink, Response, ReceiveBody, StreamName, stdout, stderr, other_stream, receive_response,
  same_action, parse_uint32, trim_left, trim_right, put_bytes, put_streams, command_state,
  receive_output, finished, Received,
}

-- The stream of a name that winsh knows: `true` is stderr.
abbrev pub StreamOf : StreamName → Bool → Type 0
StreamOf stdout err = err ≡ false
StreamOf stderr err = err ≡ true
StreamOf other_stream err = ⊥

module _ (k : Sink) where
  open k use {State, out, decode}

  -- All of the streams' bytes were written, each to its own writer and in order.
  pub data Written : List (StreamName × List ℕ) → State → State → Type 0 where
    nothing : {s : State} → Written [] s s
    stream :
        {name : StreamName} {text : List ℕ} {rest : List (StreamName × List ℕ)} {s u : State}
        (err : Bool) (bytes : List ℕ)
        → StreamOf name err
        → decode text ≡ some bytes
        → (out err s bytes).0 ≡ length bytes
        → (out err s bytes).1 ≡ none
        → Written rest (out err s bytes).2 u
        → Written ((name, text) ∷ rest) s u

  put_bytes-Written :
      (name : StreamName) (bytes : List ℕ) (s : State)
      → (put_bytes k name bytes s).0 ≡ none
      → (err : Bool) × StreamOf name err
        × ((out err s bytes).0 ≡ length bytes)
        × ((out err s bytes).1 ≡ none)
        × ((put_bytes k name bytes s).1 ≡ (out err s bytes).2)
  put_bytes-Written stdout bytes s e = (false, refl, ground arith, ground arith, refl)
  put_bytes-Written stderr bytes s e = (true, refl, ground arith, ground arith, refl)
  put_bytes-Written other_stream bytes s e = absurd (cc)

  put_streams-Written :
      (streams : List (StreamName × List ℕ)) (s : State)
      → (put_streams k streams s).0 ≡ none
      → Written streams s (put_streams k streams s).1
  unfolding put_streams
  put_streams-Written [] s e = nothing
  put_streams-Written ((name, text) ∷ streams) s e =
      let P : Option Error × State → Type 0 =
        λ r. (r.0 ≡ none → Written ((name, text) ∷ streams) s r.1) in
      case_option-elim P (decode text) (λ _ x. absurd (cc))
        (λ bytes d.
          case_option-elim P (put_bytes k name bytes s).0
            (λ ok x.
              let (err, named, count, fine, after) = put_bytes-Written name bytes s ok in
              stream err bytes named d count fine (
                subst
                  (λ (t : State).
                    Written streams t (put_streams k streams (put_bytes k name bytes s).1).1)
                  after (put_streams-Written streams (put_bytes k name bytes s).1 x)))
            (λ failure _ x. absurd (cc)))
        e

  -- What stands behind a finished command.
  pub record Finished (r : Response) (s t : State) (code : ℕ) : Type 0 where
    pub receives : same_action r.action receive_response ≡ true
    pub body : ReceiveBody
    pub present : r.receive ≡ some body
    pub done : body.done ≡ true
    pub exit_code : parse_uint32 (trim_right (trim_left body.exit)) ≡ some code
    pub in_range : code < 2 ^ 32
    pub written : Written body.streams s t

  parse_uint32-lt : (text : List ℕ) (n : ℕ) → parse_uint32 text ≡ some n → n < 2 ^ 32
  unfolding parse_uint32
  parse_uint32-lt text n e = ground arith

  command_state-finished :
      (body : ReceiveBody) (code : ℕ)
      → command_state k body ≡ finished code
      → (body.done ≡ true) × (parse_uint32 (trim_right (trim_left body.exit)) ≡ some code)
  unfolding command_state
  command_state-finished body code e = ground arith

  -- `response.receive` reports a finished command only from a ReceiveResponse whose state is done
  -- and whose exit code is a decimal below 2 ^ 32, after every stream's bytes were written whole
  -- and in order.
  pub receive_output-Finished :
      (r : Response) (s t : State) (code : ℕ)
      → receive_output k r s ≡ (finished code, t)
      → Finished r s t code
  unfolding receive_output
  receive_output-Finished r s t code e =
      let P : Received × State → Type 0 = λ q. (q ≡ (finished code, t) → Finished r s t code) in
      if-elim P (same_action r.action receive_response)
        (λ act.
          case_option-elim P r.receive (λ _ x. absurd (cc))
            (λ body got.
              case_option-elim P (put_streams k body.streams s).0
                (λ ok x.
                  let (done, code') =
                    command_state-finished body code (ap (λ (q : Received × State). q.0) x) in
                  record {
                    receives = act;
                    body = body;
                    present = got;
                    done = done;
                    exit_code = code';
                    in_range = parse_uint32-lt _ code code';
                    written =
                        subst (Written body.streams s) (ap (λ (q : Received × State). q.1) x)
                          (put_streams-Written body.streams s ok);
                  })
                (λ failure _ x. absurd (cc))))
        (λ _ x. absurd (cc)) e
