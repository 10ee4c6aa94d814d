-- ===== src/Remote/Upload/Settled.antt =====
-- internal/remote/upload.go: what the deferred cleanup of an upload leaves.
use winsh.Base.{
  ℕ, ◌≡◌, ◌≢◌, ◌⊎◌, inl, inr, refl, ap, true, false, Option, none, some, List, [], ◌∷◌, length,
  ◌==◌, if-elim, case_option, case_option-elim, Bool-cases, Error,
}
use winsh.Remote.Codec.Chunk.{size}
use winsh.Remote.Codec.Paths.{stage_path}
use winsh.Remote.Session.{
  cleanup, History, Session, session, start_session_lanes, send_input, close_with,
}
use winsh.Remote.Runner.{exited, receive_loop, receive_result}
use winsh.Remote.Runner.Fate.{case_started-elim}
use winsh.Remote.Upload.{
  TransferResult, Failure, plain_failure, Encoding, Outputs, output_sink, empty_output,
  join_failure, judge, close_finalizer, dispatch_finalizer,
}
use winsh.Remote.Upload.Commit.{Acknowledged}
use winsh.Remote.Upload.Lanes.{
  stream, Source, Host, Codecs, Order, Transferred, refused, limited, cleanup_remote_stage, settle,
}
use winsh.Remote.Upload.Verified.{contents, Staged, Removed, cleanup_remote_stage-Removed}

abbrev pub receiver_outputs : Outputs
receiver_outputs = (empty_output 4096, empty_output 1024)

-- A file's description in a result, but for the commit.
abbrev pub Describes : TransferResult → TransferResult → Type 0
Describes r r' = (r'.bytes ≡ r.bytes) × (r'.sha256 ≡ r.sha256)

judge-Describes :
    (encoding : Encoding) (id : List ℕ) (r : TransferResult) (q : ℕ × Option Error)
    (outputs : Outputs)
    → Describes r (judge encoding id r q outputs).0
unfolding judge
judge-Describes encoding id r (code, err) (out, err_out) =
    let P : TransferResult × Option Failure → Type 0 = λ j. Describes r j.0 in
    case_option-elim P err
      (λ _.
        if-elim P (code == 0) (λ _. if-elim P _ (λ _. (refl, refl)) (λ _. (refl, refl)))
          (λ _. (refl, refl)))
      (λ e _. (refl, refl))

module _ (host : Host) (codecs : Codecs) (fuel : ℕ) (order : Order) where
  pub finalized-Describes :
      (id : List ℕ) (r : TransferResult) (h : History)
      → Describes r
          (dispatch_finalizer host.finalizing host.clock codecs.encoding fuel order.finalizer.built
            order.finalizer.prepared order.finalization.interrupted order.finalization.joined id r
            h).0
  unfolding dispatch_finalizer close_finalizer
  finalized-Describes id r h =
      let P : TransferResult × Option Failure × History → Type 0 = λ x. Describes r x.0 in
      let o = start_session_lanes host.finalizing order.finalizer.prepared true true h in
      let h2 = (send_input host.finalizing [] true o.1).1 in
      let outputs : Outputs = (empty_output 256, empty_output 1024) in
      let l =
        receive_loop host.finalizing host.clock (output_sink codecs.encoding) fuel h2 outputs in
      if-elim P order.finalizer.built
        (λ _.
          case_started-elim P o.0
            (λ s _.
              case_option-elim P (send_input host.finalizing [] true o.1).0
                (λ _.
                  judge-Describes codecs.encoding id r
                    (receive_result order.finalization.interrupted l.0) l.2)
                (λ e _. (refl, refl)))
            (λ e _. (refl, refl)))
        (λ _. (refl, refl))

  -- A committed upload, from the history of the call on: the receiver's session started, the whole
  -- file was sent to it and the end of the input, it ended with code 0 and a record of this file,
  -- its session closed without an error, and behind that the finalizer acknowledged the commit. The
  -- file did not change.
  pub record Committed (h : History) (r : TransferResult) : Type 0 where
    pub initial : ℕ
    pub reads : ℕ → Source
    pub opened : order.source ≡ some (initial, reads)
    pub limit : ℕ
    pub sized : order.chunk_limit ≡ size limit
    pub ses : Session
    pub from : History
    pub started :
        start_session_lanes host.streaming order.receiver.prepared true true h ≡ (session ses, from)
    pub file : List ℕ
    pub behind : History
    pub streamed : stream host codecs (reads (limited limit)) [] from ≡ (some file, behind)
    pub whole : contents (reads (limited limit)) ≡ some file
    pub input : (send_input host.streaming [] true behind).0 ≡ none
    pub complete : length file ≡ initial
    pub unchanged : order.unchanged ≡ true
    pub id : List ℕ
    pub identified : order.transfer_id ≡ some id
    pub drained : History
    pub outputs : Outputs
    pub received :
        receive_loop host.receiving host.clock
          (output_sink codecs.encoding)
          fuel
          from
          receiver_outputs
        ≡ (exited 0, drained, outputs)
    pub in_time : order.reception.interrupted ≡ none
    pub staged : Staged host codecs id file outputs
    pub closed : History
    pub closing :
        close_with host.streaming cleanup cleanup false ses order.early.joined
          (send_input host.streaming [] true behind).1
        ≡ (none, closed)
    pub finalizer : order.finalizer.built ≡ true
    pub acknowledged :
        Acknowledged host.finalizing host.clock codecs.encoding fuel order.finalizer.prepared
          order.finalization.interrupted closed id
    pub bytes : r.bytes ≡ length file
    pub sha256 : r.sha256 ≡ codecs.sha256_hex file

  -- The one artifact that is reported is this upload's stage.
  pub record ReportsStage (t : Transferred) : Type 0 where
    pub id : List ℕ
    pub identified : order.transfer_id ≡ some id
    pub stage : List ℕ
    pub placed : stage_path order.remote_path id ≡ some stage
    pub only : t.artifacts ≡ stage ∷ []

  -- What a call from a history on leaves, with the history that it ends with.
  pub record Accounted (h : History) (t : Transferred × History) : Type 0 where
    pub committed : t.0.result.committed ≡ true → Committed h t.0.result × (t.0.artifacts ≡ [])
    pub reported : t.0.result.committed ≡ false → t.0.failure ≢ none
    pub left :
        t.0.result.committed ≡ false
        → (t.0 ≡ refused plain_failure)
          ⊎ (ReportsStage t.0 ⊎ Removed host codecs fuel order.cleaner order.removal t.1)
    pub uncertain :
        t.0.result.committed ≡ false
        → (f : Failure) → t.0.failure ≡ some f
        → f.unknown ≡ true
        → ReportsStage t.0

  pub refused-Accounted : (h h' : History) → Accounted h (refused plain_failure, h')
  refused-Accounted h h' = record {
    committed = λ c. absurd (cc);
    reported = λ _ c. absurd (cc);
    left = λ _. inl refl;
    uncertain = λ _ f is unsure.
        absurd (cc (ap (λ (o : Option Failure). case_option o false (λ g. g.unknown)) is));
  }

  module _ (h : History) (stage id : List ℕ) (identified : order.transfer_id ≡ some id)
      (placed : stage_path order.remote_path id ≡ some stage) where
    kept-Accounted :
        (r : TransferResult) (f : Option Failure) (h' : History)
        → r.committed ≡ false
        → f ≢ none
        → Accounted h (record { result = r; failure = f; artifacts = stage ∷ [] }, h')
    kept-Accounted r f h' fresh some_failure =
        let k : ReportsStage (record { result = r; failure = f; artifacts = stage ∷ [] }) = record {
          id = id;
          identified = identified;
          stage = stage;
          placed = placed;
          only = refl;
        } in
        record {
          committed = λ c. absurd (cc);
          reported = λ _. some_failure;
          left = λ _. inr (inl k);
          uncertain = λ _ g is unsure. k;
        }

    joined_some : (f : Option Failure) (e : Error) → join_failure f (some e) ≢ none
    joined_some none e c = absurd (cc)
    joined_some (some f) e c = absurd (cc)

    pub uncommitted-Accounted :
        (r : TransferResult) (f : Failure) (close_error : Option Error) (h' : History)
        → r.committed ≡ false
        → Accounted h (settle host codecs fuel order stage (r, some f) close_error h')
    unfolding settle
    uncommitted-Accounted r f close_error h' fresh =
        let P : Transferred × History → Type 0 = Accounted h in
        let c = cleanup_remote_stage host codecs fuel order.cleaner order.removal h' in
        if-elim P r.committed (λ done. absurd (cc))
          (λ _.
            case_option-elim P close_error
              (λ _.
                if-elim P f.unknown (λ _. kept-Accounted r (some f) h' fresh (λ z. absurd (cc)))
                  (λ known.
                    if-elim P c.0
                      (λ cleaned. record {
                        committed = λ done. absurd (cc);
                        reported = λ _ z. absurd (cc);
                        left = λ _. inr (
                            inr (
                              cleanup_remote_stage-Removed host codecs fuel order.cleaner
                                order.removal h' cleaned));
                        uncertain = λ _ g is unsure. absurd (
                            cc (
                              ap (λ (o : Option Failure). case_option o false (λ x. x.unknown))
                                is));
                      })
                      (λ _. kept-Accounted r (some f) c.1 fresh (λ z. absurd (cc)))))
              (λ e _.
                kept-Accounted r (join_failure (some f) (some e)) h' fresh
                  (joined_some (some f) e)))

    finished-Accounted :
        (r : TransferResult) (f : Option Failure) (close_error : Option Error) (h' : History)
        → r.committed ≡ true
        → Committed h r
        → Accounted h (settle host codecs fuel order stage (r, f) close_error h')
    unfolding settle
    finished-Accounted r f close_error h' done evidence =
        let P : Transferred × History → Type 0 = Accounted h in
        if-elim P r.committed
          (λ _. record {
            committed = λ _. (evidence, refl);
            reported = λ fresh. absurd (cc);
            left = λ fresh. absurd (cc);
            uncertain = λ fresh. absurd (cc);
          })
          (λ fresh. absurd (cc))

    lost-Accounted :
        (r : TransferResult) (f : Option Failure) (close_error : Option Error) (h' : History)
        → r.committed ≡ false
        → f ≢ none
        → Accounted h (settle host codecs fuel order stage (r, f) close_error h')
    lost-Accounted r none close_error h' fresh fails = absurd (fails refl)
    lost-Accounted r (some f) close_error h' fresh fails =
        uncommitted-Accounted r f close_error h' fresh

    pub settle-Accounted :
        (r : TransferResult) (f : Option Failure) (close_error : Option Error) (h' : History)
        → (r.committed ≡ true → Committed h r)
        → (r.committed ≡ false → f ≢ none)
        → Accounted h (settle host codecs fuel order stage (r, f) close_error h')
    settle-Accounted r f close_error h' evident fails = elim (Bool-cases r.committed) [
      | inl done ↦ finished-Accounted r f close_error h' done (evident done)
      | inr fresh ↦ lost-Accounted r f close_error h' fresh (fails fresh)
    ]
