-- ===== src/Remote/Runner/Writers.antt =====
-- A law of the caller's writers holds behind every Receive of internal/remote/session.go.
use winsh.Base.{
  ℕ, zero, suc, Bool, true, false, Option, List, [], ◌∷◌, if-elim, case_option-elim, Error,
  has_mark, operation_timeout,
}
use winsh.Remote.Response.{
  Sink, Response, StreamName, stdout, stderr, other_stream, Received, same_action, receive_response,
  put_bytes, put_streams, receive_output, parse_response, case_received-elim,
}
use winsh.Remote.Session.{
  History, Network, receive_lane, receive, post, case_outcome-elim, case_parsed-elim,
}
use winsh.Remote.Runner.{Clock, LoopEnd, receive_loop}

module _ (sink : Sink) (Law : sink.State → Type 0)
    (kept : (err : Bool) (s : sink.State) (bytes : List ℕ)
      → Law s
      → Law (sink.out err s bytes).2) where
  open sink use {State}

  put_bytes-keeps :
      (name : StreamName) (bytes : List ℕ) (s : State) → Law s → Law (put_bytes sink name bytes s).1
  put_bytes-keeps stdout bytes s law = kept false s bytes law
  put_bytes-keeps stderr bytes s law = kept true s bytes law
  put_bytes-keeps other_stream bytes s law = law

  put_streams-keeps :
      (streams : List (StreamName × List ℕ)) (s : State)
      → Law s
      → Law (put_streams sink streams s).1
  unfolding put_streams
  put_streams-keeps [] s law = law
  put_streams-keeps ((name, text) ∷ streams) s law =
      let P : Option Error × State → Type 0 = λ r. Law r.1 in
      case_option-elim P (sink.decode text) (λ _. law)
        (λ bytes _.
          let next = put_bytes-keeps name bytes s law in
          case_option-elim P (put_bytes sink name bytes s).0
            (λ _. put_streams-keeps streams (put_bytes sink name bytes s).1 next) (λ _ _. next))

  receive_output-keeps : (r : Response) (s : State) → Law s → Law (receive_output sink r s).1
  unfolding receive_output
  receive_output-keeps r s law =
      let P : Received × State → Type 0 = λ x. Law x.1 in
      if-elim P (same_action r.action receive_response)
        (λ _.
          case_option-elim P r.receive (λ _. law)
            (λ body _.
              let next = put_streams-keeps body.streams s law in
              case_option-elim P (put_streams sink body.streams s).0 (λ _. next) (λ _ _. next)))
        (λ _. law)

  module _ (net : Network) (clock : Clock) where
    pub receive_loop-keeps :
        (fuel : ℕ) (h : History) (s : State) → Law s → Law (receive_loop net clock sink fuel h s).2
    unfolding receive_loop
    receive_loop-keeps zero h s law = law
    receive_loop-keeps (suc fuel) h s law =
        let P : LoopEnd × History × State → Type 0 = λ r. Law r.2 in
        let o = net receive_lane receive h in
        let h1 = (post net receive_lane receive h).1 in
        let again = receive_loop-keeps fuel h1 s law in
        case_option-elim P (clock h)
          (λ _.
            case_outcome-elim P (post net receive_lane receive h).0
              (λ e _. if-elim P (has_mark operation_timeout e) (λ _. again) (λ _. law))
              (λ r _.
                case_parsed-elim P (parse_response r)
                  (λ e _. if-elim P (has_mark operation_timeout e) (λ _. again) (λ _. law))
                  (λ response _.
                    let next = receive_output-keeps response s law in
                    case_received-elim P (receive_output sink response s).0 (λ _ _. next)
                      (λ _. receive_loop-keeps fuel h1 (receive_output sink response s).1 next)
                      (λ _ _. next))))
          (λ _ _. law)
