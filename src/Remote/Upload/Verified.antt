-- ===== src/Remote/Upload/Verified.antt =====
-- internal/remote/upload.go: what a committed upload went through, and what an uncommitted one
-- leaves behind.
use winsh.Base.{
  ℕ, ◌≡◌, refl, ap, ◌∙◌, Bool, true, false, not, ◌&&◌, Option, none, some, List, [], ◌++◌, length,
  ◌==◌, if◌then◌else◌, if-elim, case_option, case_option-elim, arith, Error,
}
use mathlib.Core.List.{append_assoc}
use winsh.Remote.Codec.Records.{Record, read_record}
use winsh.Remote.Response.{same_text}
use winsh.Remote.Session.{Session, cleanup, History, start_session_lanes, send_input, close_with}
use winsh.Remote.Runner.{receive_loop, receive_result}
use winsh.Remote.Runner.Fate.{case_started-elim}
use winsh.Remote.Upload.{Failure, Outputs, output_sink, empty_output, trimmed}
use winsh.Remote.Upload.Commit.{Ran, receive_result-Ran}
use winsh.Remote.Upload.Lanes.{
  Source, more, last, Host, Codecs, Script, Budget, Order, is_count, cleaned_text, send_chunk,
  stream, is_cleaned, cleanup_remote_stage, check_stage,
}

-- The bytes of a file that is read to its end.
unfoldable pub contents : Source → Option (List ℕ)
contents (more bytes source) = case_option (contents source) none (λ rest. some (bytes ++ rest))
contents (last bytes is_eof) = if is_eof then some bytes else none

abbrev pub cleanup_outputs : Outputs
cleanup_outputs = (empty_output 256, empty_output 256)

module _ (host : Host) (codecs : Codecs) where
  -- What is sent without an error is the whole file.
  pub stream-contents :
      (source : Source) (sent bytes : List ℕ) (h : History)
      → (stream host codecs source sent h).0 ≡ some bytes
      → (rest : List ℕ) × (contents source ≡ some rest) × (bytes ≡ sent ++ rest)
  unfolding stream contents
  stream-contents (more chunk source) sent bytes h =
      let P : Option (List ℕ) × History → Type 0 = λ r.
        r.0 ≡ some bytes
        → (rest : List ℕ) × (contents (more chunk source) ≡ some rest) × (bytes ≡ sent ++ rest) in
      let c = send_chunk host codecs chunk h in
      if-elim P (host.stopped h) (λ _ e. absurd (cc))
        (λ _.
          case_option-elim P c.0
            (λ _ e.
              let (rest, whole, split) = stream-contents source (sent ++ chunk) bytes c.1 e in
              (chunk ++ rest, rw whole refl, split ∙ append_assoc sent chunk rest))
            (λ x _ e. absurd (cc)))
  stream-contents (last chunk is_eof) sent bytes h =
      let P : Option (List ℕ) × History → Type 0 = λ r.
        r.0 ≡ some bytes
        → (rest : List ℕ) × (contents (last chunk is_eof) ≡ some rest) × (bytes ≡ sent ++ rest) in
      let c = send_chunk host codecs chunk h in
      let Q : Option (List ℕ) → Type 0 = λ o.
        o ≡ some bytes → (rest : List ℕ) × (o ≡ some (sent ++ rest)) × (bytes ≡ sent ++ rest) in
      if-elim P (host.stopped h) (λ _ e. absurd (cc))
        (λ _.
          case_option-elim P c.0
            (λ _.
              if-elim
                (λ (o : Option (List ℕ)).
                  o ≡ some bytes
                  → (rest : List ℕ) × (contents (last chunk is_eof) ≡ some rest)
                    × (bytes ≡ sent ++ rest))
                is_eof (λ eof e. (chunk, rw eof refl, cc)) (λ _ e. absurd (cc)))
            (λ x _ e. absurd (cc)))

  -- The receiver's record of the stage fits what was sent.
  pub record Staged (id sent : List ℕ) (outputs : Outputs) : Type 0 where
    pub silent : length outputs.1.held ≡ 0
    pub rec : Record
    pub read : read_record codecs.json codecs.decoder (some outputs.0.held) id ≡ some rec
    pub counted : is_count (length sent) rec.record_bytes ≡ true
    pub hashed : same_text rec.record_sha256 (codecs.sha256_hex sent) ≡ true

  pub check_stage-Staged :
      (order : Order) (initial : ℕ) (id sent : List ℕ) (q : ℕ × Option Error) (outputs : Outputs)
      → check_stage host codecs order initial id sent q outputs ≡ none
      → Staged id sent outputs
        × (order.unchanged ≡ true)
        × (length sent ≡ initial)
        × (q ≡ (0, none))
  unfolding check_stage
  check_stage-Staged order initial id sent (code, err) (out, err_out) =
      let T : Type 0 =
        Staged id sent (out, err_out)
        × (order.unchanged ≡ true)
        × (length sent ≡ initial)
        × (◌≡◌ {A = ℕ × Option Error} (code, err) (0, none)) in
      let P : Option Failure → Type 0 = λ o. o ≡ none → T in
      case_option-elim P err
        (λ fine.
          if-elim P (not (code == 0)) (λ _ e. absurd (cc))
            (λ zero'.
              if-elim P
                (not (length err_out.held == 0 && order.unchanged && length sent == initial))
                (λ _ e. absurd (cc))
                (λ same.
                  case_option-elim P (read_record codecs.json codecs.decoder (some out.held) id)
                    (λ _ e. absurd (cc))
                    (λ rec got.
                      if-elim P
                        (is_count (length sent) rec.record_bytes
                          && same_text rec.record_sha256 (codecs.sha256_hex sent))
                        (λ agrees _. (
                          record {
                            silent = ground arith;
                            rec = rec;
                            read = got;
                            counted = ground arith;
                            hashed = ground arith;
                          },
                          ground arith,
                          ground arith,
                          ended fine zero',
                        ))
                        (λ _ e. absurd (cc))))))
        (λ x _ e. absurd (cc))
    where
      ended :
          err ≡ none → not (code == 0) ≡ false → ◌≡◌ {A = ℕ × Option Error} (code, err) (0, none)
      ended fine z =
          let c : code ≡ 0 = ground arith in ap (λ x. (code, x)) fine ∙ ap (λ x. (x, none)) c

  -- The cleanup command, run with its script and budget up to a history, which ends with the close
  -- of its session: it ended with code 0 and said that it removed the stage, and nothing else, and
  -- the close succeeded.
  pub record Removed (fuel : ℕ) (script : Script) (budget : Budget) (h' : History) : Type 0 where
    pub from : History
    pub built : script.built ≡ true
    pub opened : Session
    pub drained : History
    pub outputs : Outputs
    pub success :
        Ran host.cleaning host.clock codecs.encoding fuel script.prepared budget.interrupted
          cleanup_outputs from opened 0 drained outputs
    pub said : same_text (trimmed codecs.encoding outputs.0) cleaned_text ≡ true
    pub silent : length outputs.1.held ≡ 0
    pub closed :
        close_with host.cleaning cleanup cleanup false opened budget.joined drained ≡ (none, h')

  module _ (fuel : ℕ) (script : Script) (budget : Budget) (h : History)
      (built : script.built ≡ true) where
    is_cleaned-Removed :
        (s : Session) (q : ℕ × Option Error) (drained h' : History) (outputs : Outputs)
        → ((code : ℕ)
            → q ≡ (code, none)
            → Ran host.cleaning host.clock codecs.encoding fuel script.prepared budget.interrupted
                cleanup_outputs h s code drained outputs)
        → close_with host.cleaning cleanup cleanup false s budget.joined drained ≡ (none, h')
        → is_cleaned host codecs q outputs ≡ true
        → Removed fuel script budget h'
    unfolding is_cleaned
    is_cleaned-Removed s (code, none) drained h' (out, err_out) ended closed e = record {
      from = h;
      built = built;
      opened = s;
      drained = drained;
      outputs = (out, err_out);
      success = ended 0 zero';
      said = ground arith;
      silent = ground arith;
      closed = closed;
    }
      where
        zero' : ◌≡◌ {A = ℕ × Option Error} (code, none) (0, none)
        zero' = let c : code ≡ 0 = ground arith in ap (λ x. (x, none)) c
    is_cleaned-Removed s (code, some x) drained h' outputs ended closed e = absurd (cc)

  pub cleanup_remote_stage-Removed :
      (fuel : ℕ) (script : Script) (budget : Budget) (h : History)
      → let r = cleanup_remote_stage host codecs fuel script budget h in
        r.0 ≡ true → Removed fuel script budget r.1
  unfolding cleanup_remote_stage
  cleanup_remote_stage-Removed fuel script budget h =
      let P : Bool × History → Type 0 = λ r. r.0 ≡ true → Removed fuel script budget r.1 in
      let o = start_session_lanes host.cleaning script.prepared true true h in
      let h2 = (send_input host.cleaning [] true o.1).1 in
      let sink = output_sink codecs.encoding in
      let l = receive_loop host.cleaning host.clock sink fuel h2 cleanup_outputs in
      if-elim P script.built
        (λ built.
          case_started-elim P o.0
            (λ s started.
              case_option-elim P (send_input host.cleaning [] true o.1).0
                (λ input.
                  let c = close_with host.cleaning cleanup cleanup false s budget.joined l.1 in
                  case_option-elim (λ b. b ≡ true → Removed fuel script budget c.1) c.0
                    (λ fine.
                      is_cleaned-Removed fuel script budget h built s
                        (receive_result budget.interrupted l.0) l.1 c.1 l.2
                        (λ code q.
                          receive_result-Ran host.cleaning host.clock codecs.encoding fuel
                            script.prepared budget.interrupted h cleanup_outputs s code started
                            input q)
                        (ap (λ x. (x, c.1)) fine))
                    (λ x _ e. absurd (cc)))
                (λ x _ e. absurd (cc)))
            (λ x _ e. absurd (cc)))
        (λ _ e. absurd (cc))
