-- ===== src/Remote/Upload/Commit.antt =====
-- internal/remote/upload.go: when an upload counts as committed, as not committed, and as unknown.
use winsh.Base.{
  ℕ, ◌≡◌, ◌≢◌, ◌⊎◌, inl, inr, refl, sym, ap, Bool, true, false, ◌&&◌, Option, none, some, List, [],
  ◌++◌, length, ◌==◌, if-elim, case_option, case_option-elim, arith, Error, ContextError, ==→eq,
  subst,
}
use winsh.Remote.Response.{same_text}
use winsh.Remote.Session.{
  cleanup, Session, session, History, Network, start_session_lanes, send_input, close_with,
}
use winsh.Remote.Runner.{Clock, LoopEnd, exited, receive_loop, receive_result}
use winsh.Remote.Runner.Fate.{case_started-elim}
use winsh.Remote.Runner.Completion.{received_code, received-none}
use winsh.Remote.Upload.{
  TransferResult, Failure, finalization_unknown, Encoding, Outputs, output_sink, empty_output,
  trimmed, committed_prefix, join_failure, judge, close_finalizer, dispatch_finalizer,
}

-- A script's command that ran from a history on: its session started, the end of the input was sent,
-- and the loop over its Receives ended with the code, the history and the output, before the wait
-- for it was interrupted.
pub record Ran (net : Network) (clock : Clock) (encoding : Encoding) (fuel : ℕ)
    (prepared : Option (List ℕ)) (interrupted : Option ContextError) (initial : Outputs)
    (h : History) (opened : Session) (code : ℕ) (drained : History) (outputs : Outputs)
    : Type 0 where
  pub started : (start_session_lanes net prepared true true h).0 ≡ session opened
  pub input : (send_input net [] true (start_session_lanes net prepared true true h).1).0 ≡ none
  pub received :
      receive_loop net clock
        (output_sink encoding)
        fuel
        (send_input net [] true (start_session_lanes net prepared true true h).1).1
        initial
      ≡ (exited code, drained, outputs)
  pub in_time : interrupted ≡ none

abbrev pub finalizer_outputs : Outputs
finalizer_outputs = (empty_output 256, empty_output 1024)

module _ (net : Network) (clock : Clock) (encoding : Encoding) (fuel : ℕ)
    (prepared : Option (List ℕ)) (interrupted : Option ContextError) (h : History) where
  pub receive_result-Ran :
      (initial : Outputs) (s : Session) (code : ℕ)
      → let o = start_session_lanes net prepared true true h in
        let i = send_input net [] true o.1 in
        let l = receive_loop net clock (output_sink encoding) fuel i.1 initial in
        o.0 ≡ session s
        → i.0 ≡ none
        → receive_result interrupted l.0 ≡ (code, none)
        → Ran net clock encoding fuel prepared interrupted initial h s code l.1 l.2
  receive_result-Ran initial s code started input q =
      let i = send_input net [] true (start_session_lanes net prepared true true h).1 in
      let l = receive_loop net clock (output_sink encoding) fuel i.1 initial in
      record {
        started = started;
        input = input;
        received = ap (λ (x : LoopEnd). (x, l.1, l.2)) (received_code interrupted l.0 code q);
        in_time = received-none interrupted l.0 code q;
      }

  -- The finalizer ended with code 0 and said that it committed this transfer, and nothing else.
  pub record Acknowledged (id : List ℕ) : Type 0 where
    pub opened : Session
    pub drained : History
    pub outputs : Outputs
    pub success :
        Ran net clock encoding fuel prepared interrupted finalizer_outputs h opened 0 drained
          outputs
    pub acknowledgement : same_text (trimmed encoding outputs.0) (committed_prefix ++ id) ≡ true
    pub silent : length outputs.1.held ≡ 0

  -- The finalizer ended with another code.
  pub record Rejected (f : Failure) : Type 0 where
    pub code : ℕ
    pub opened : Session
    pub drained : History
    pub outputs : Outputs
    pub ended :
        Ran net clock encoding fuel prepared interrupted finalizer_outputs h opened code drained
          outputs
    pub nonzero : code ≢ 0
    pub reported : f.exit ≡ some code

  -- What a result of `dispatchFinalizer` lets the caller conclude.
  pub record Decided (script_ok : Bool) (id : List ℕ)
      (r : TransferResult × Option Failure × History) : Type 0 where
    pub committed : r.0.committed ≡ true → (script_ok ≡ true) × Acknowledged id
    pub reported : r.0.committed ≡ false → r.1 ≢ none
    pub known :
        r.0.committed ≡ false
        → (f : Failure) → r.1 ≡ some f
        → f.unknown ≡ false
        → ((script_ok ≡ false) × (r.2 ≡ h)) ⊎ ((script_ok ≡ true) × Rejected f)

  unknown-Decided :
      (script_ok : Bool) (id : List ℕ) (r : TransferResult) (e : Option Error) (h' : History)
      → r.committed ≡ false
      → Decided script_ok id (r, join_failure (some finalization_unknown) e, h')
  unknown-Decided script_ok id r e h' fresh = record {
    committed = λ c. absurd (cc);
    reported = λ _ c. absurd (cc);
    known = λ _ f is certain.
        absurd (cc (ap (λ (o : Option Failure). case_option o false (λ g. g.unknown)) is));
  }

  judged-Decided :
      (script_ok : Bool) (id : List ℕ) (r : TransferResult) (q : ℕ × Option Error)
      (opened : Session) (drained : History) (outputs : Outputs) (e : Option Error) (h' : History)
      → script_ok ≡ true
      → r.committed ≡ false
      → ((code : ℕ)
          → q ≡ (code, none)
          → Ran net clock encoding fuel prepared interrupted finalizer_outputs h opened code drained
              outputs)
      → let j = judge encoding id r q outputs in Decided script_ok id (j.0, join_failure j.1 e, h')
  unfolding judge
  judged-Decided script_ok id r (code, err) opened drained (out, err_out) e h' built fresh ended =
      let P : TransferResult × Option Failure → Type 0 =
        λ j. Decided script_ok id (j.0, join_failure j.1 e, h') in
      case_option-elim P err
        (λ fine.
          let stop = ended code (same fine) in
          if-elim P (code == 0)
            (λ zero'.
              if-elim P
                (same_text (trimmed encoding out) (committed_prefix ++ id)
                  && length err_out.held == 0)
                (λ said. record {
                  committed = λ _. (
                    built,
                    record {
                      opened = opened;
                      drained = drained;
                      outputs = (out, err_out);
                      success =
                          subst
                            (λ c.
                              Ran net clock encoding fuel prepared interrupted finalizer_outputs h
                                opened c drained (out, err_out))
                            (==→eq code 0 zero') stop;
                      acknowledgement = ground arith;
                      silent = ground arith;
                    },
                  );
                  reported = λ c. absurd (cc);
                  known = λ c. absurd (cc);
                })
                (λ _. unknown-Decided script_ok id r e h' fresh))
            (λ nonzero. record {
              committed = λ c. absurd (cc);
              reported = λ _ c. absurd (cc);
              known = λ _ f is certain. inr (
                built,
                record {
                  code = code;
                  opened = opened;
                  drained = drained;
                  outputs = (out, err_out);
                  ended = stop;
                  nonzero = λ c. absurd (ground arith);
                  reported = ap (λ (o : Option Failure). case_option o none (λ g. g.exit)) (sym is);
                },
              );
            }))
        (λ failure _. unknown-Decided script_ok id r e h' fresh)
    where
      same : err ≡ none → ◌≡◌ {A = ℕ × Option Error} (code, err) (code, none)
      same fine = ap (λ x. (code, x)) fine

  -- Where `dispatchFinalizer` reports the upload as committed, the run of the finalizer that it
  -- made from this history ended with code 0 and printed this transfer's acknowledgement and no
  -- error output. Where it does not, it returns an error, and one without FinalizationUnknownError
  -- comes only from a script that was not built, with no request made, or from that run, ended with
  -- the reported nonzero code. The result that is passed in is not committed.
  pub dispatch_finalizer-Decided :
      (script_ok : Bool) (joined : Option ContextError) (id : List ℕ) (r : TransferResult)
      → r.committed ≡ false
      → Decided script_ok id
          (dispatch_finalizer net clock encoding fuel script_ok prepared interrupted joined id r h)
  unfolding dispatch_finalizer close_finalizer
  dispatch_finalizer-Decided script_ok joined id r fresh =
      let P : TransferResult × Option Failure × History → Type 0 = Decided script_ok id in
      let h1 = (start_session_lanes net prepared true true h).1 in
      let h2 = (send_input net [] true h1).1 in
      let l = receive_loop net clock (output_sink encoding) fuel h2 finalizer_outputs in
      if-elim P script_ok
        (λ built.
          case_started-elim P (start_session_lanes net prepared true true h).0
            (λ s started.
              case_option-elim P (send_input net [] true h1).0
                (λ input.
                  judged-Decided script_ok id r (receive_result interrupted l.0) s l.1 l.2
                    (close_with net cleanup cleanup false s joined l.1).0
                    (close_with net cleanup cleanup false s joined l.1).1 built fresh
                    (λ code q. receive_result-Ran finalizer_outputs s code started input q))
                (λ e _.
                  unknown-Decided script_ok id r
                    (close_with net cleanup cleanup false s joined h2).0
                    (close_with net cleanup cleanup false s joined h2).1 fresh))
            (λ e _. unknown-Decided script_ok id r none h1 fresh))
        (λ unbuilt. record {
          committed = λ c. absurd (cc);
          reported = λ _ c. absurd (cc);
          known = λ _ f is certain. inl (unbuilt, refl);
        })
