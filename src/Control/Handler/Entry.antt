-- ===== src/Control/Handler/Entry.antt =====
-- internal/control/server.go: how a command gets into the line, and what ends the master.
use winsh.Base.{
  ℕ, ◌≡◌, refl, sym, ap, ◌∙◌, Bool, true, false, not, ◌||◌, Option, none, some, List, ◌==◌,
  if◌then◌else◌, if-elim, case_option, case_option-elim, arith, ==→eq, leb, length,
}
use winsh.Control.Category.{Category, not_started}
use winsh.Control.Protocol.{Read, ok, err, read_frame, frame_request, frame_check, frame_exit}
use winsh.Control.Client.{validate_call, case_read}
use winsh.Control.Server.{
  Job, Server, Contexts, enqueue, admit_job, is_none, max_queue, stop_admission,
}
use winsh.Control.Server.Line.{view}
use winsh.Control.Handler.{
  ControlTarget, Arrival, Payloads, Handled, silent, result_reply, error_reply, waits_for,
  waits_for_end, check_target, handle_target, submit, handle_call, handle,
}

module _ {Call Identity : Type 0} (payloads : Payloads Call Identity)
    (same_target : Identity → Bool) (persist : ℕ) (contexts : Contexts) (id : ℕ) (exiting : Bool)
    (input : List ℕ) (s : Server Call) where
  -- The target that the master serves, while it still does.
  pub record Matches (target : ControlTarget Identity) : Type 0 where
    pub running : exiting ≡ false
    pub same : same_target target.identity ≡ true
    pub lasting : persist ≡ target.persist

  check_target-Matches :
      (target : ControlTarget Identity)
      → check_target payloads same_target persist exiting target ≡ none
      → Matches target
  unfolding check_target
  check_target-Matches target e = record {
    running = ground arith;
    same = ground arith;
    lasting = ground arith;
  }

  -- A call that joined the line.
  pub record Joined (j : Job Call) (t : Server Call) : Type 0 where
    pub payload : List ℕ
    pub rest : List ℕ
    pub framed : read_frame input ≡ ok (frame_request, payload, rest)
    pub arrival : Arrival Call Identity
    pub decoded : payloads.call_of payload ≡ some arrival
    pub valid : validate_call arrival.request ≡ true
    pub matching : Matches arrival.target
    pub in_time : arrival.in_time ≡ true
    pub job : j ≡ record { id = id; call = arrival.call }
    pub accepted : enqueue contexts j s ≡ (none, t)

  -- A request to end the master.
  pub record Ended (t : Server Call) : Type 0 where
    pub payload : List ℕ
    pub rest : List ℕ
    pub framed : read_frame input ≡ ok (frame_exit, payload, rest)
    pub target : ControlTarget Identity
    pub decoded : payloads.target_of payload ≡ some target
    pub matching : Matches target
    pub stopped : t ≡ stop_admission s

  abbrev pub Answered : Handled Call → Server Call → Type 0
  Answered silent t = t ≡ s
  Answered (result_reply r) t = t ≡ s
  Answered (error_reply c) t = view t ≡ view s
  Answered (waits_for j) t = Joined j t
  Answered waits_for_end t = Ended t

  abbrev Outcome : Handled Call × Server Call → Type 0
  Outcome r = Answered r.0 r.1

  enqueue-refused :
      (job : Job Call) (c : Category)
      → (enqueue contexts job s).0 ≡ some c
      → view (enqueue contexts job s).1 ≡ view s
  unfolding enqueue admit_job
  enqueue-refused job c =
      let Q : Option Category × Server Call → Type 0 = λ r. r.0 ≡ some c → view r.1 ≡ view s in
      if-elim Q s.exiting (λ _ _. refl)
        (λ _.
          case_option-elim Q (contexts job.id)
            (λ _.
              if-elim Q (is_none s.active) (λ _ x. absurd (cc))
                (λ _.
                  if-elim Q (leb max_queue (length s.queue)) (λ _ _. refl) (λ _ x. absurd (cc))))
            (λ e _ _. refl))

  submitted :
      (job : Job Call) (category : Option Category) (t : Server Call)
      → enqueue contexts job s ≡ (category, t)
      → (enqueue contexts job s ≡ (none, t) → Joined job t)
      → Outcome (case_option category (waits_for job) (λ c. error_reply c), t)
  submitted job none t e joins = joins e
  submitted job (some c) t e joins =
      ap (λ r. view r.1) (sym e) ∙ enqueue-refused job c (ap (λ r. r.0) e)

  handle_target-Answered :
      (kind : ℕ) (payload rest : List ℕ)
      → read_frame input ≡ ok (kind, payload, rest)
      → Outcome (handle_target payloads same_target persist (kind == frame_exit) exiting payload s)
  unfolding handle_target
  handle_target-Answered kind payload rest framed =
      case_option-elim Outcome (payloads.target_of payload) (λ _. refl)
        (λ target decoded.
          case_option-elim Outcome (check_target payloads same_target persist exiting target)
            (λ fits.
              if-elim Outcome (kind == frame_exit)
                (λ exits. record {
                  payload = payload;
                  rest = rest;
                  framed = framed ∙ ap (λ k. ok (k, payload, rest)) (==→eq kind frame_exit exits);
                  target = target;
                  decoded = decoded;
                  matching = check_target-Matches target fits;
                  stopped = refl;
                })
                (λ _. refl))
            (λ c _. refl))

  handle_call-Answered :
      (kind : ℕ) (payload rest : List ℕ)
      → read_frame input ≡ ok (kind, payload, rest)
      → (kind == frame_request) ≡ true
      → Outcome (handle_call payloads same_target persist contexts id exiting payload s)
  unfolding handle_call submit
  handle_call-Answered kind payload rest framed is =
      case_option-elim Outcome (payloads.call_of payload) (λ _. refl)
        (λ arrival decoded.
          if-elim Outcome (not (validate_call arrival.request)) (λ _. refl)
            (λ valid.
              case_option-elim Outcome
                (check_target payloads same_target persist exiting arrival.target)
                (λ fits.
                  if-elim Outcome arrival.in_time
                    (λ early.
                      let job : Job Call = record { id = id; call = arrival.call } in
                      let r = enqueue contexts job s in
                      submitted job r.0 r.1 refl (λ e. record {
                        payload = payload;
                        rest = rest;
                        framed =
                            framed ∙ ap (λ k. ok (k, payload, rest)) (==→eq kind frame_request is);
                        arrival = arrival;
                        decoded = decoded;
                        valid = ground arith;
                        matching = check_target-Matches arrival.target fits;
                        in_time = early;
                        job = refl;
                        accepted = e;
                      }))
                    (λ _. refl))
                (λ c _. refl)))

  read_case :
      (r : Read (ℕ × List ℕ × List ℕ))
      → read_frame input ≡ r
      → Outcome (
          case_read r
            (λ e. (silent, s))
            (λ (kind, payload, rest).
              if kind == frame_check || kind == frame_exit
              then handle_target payloads same_target persist (kind == frame_exit) exiting payload s
              else (if kind == frame_request
                  then handle_call payloads same_target persist contexts id exiting payload s
                  else (error_reply not_started, s))))
  read_case (err e) q = refl
  read_case (ok (kind, payload, rest)) q =
      if-elim Outcome (kind == frame_check || kind == frame_exit)
        (λ _. handle_target-Answered kind payload rest q)
        (λ _.
          if-elim Outcome (kind == frame_request)
            (λ is. handle_call-Answered kind payload rest q is) (λ _. refl))

  -- Whatever bytes a client sends, `handle` waits for a job only where they begin with a Request
  -- frame whose call is decoded and valid, has this master's target and persistence while the master
  -- runs, and comes before its deadline, and `enqueue` took it; and it ends the master only for an
  -- Exit frame with this target. In every other case it answers at once or not at all, and the
  -- running command, the line and the answers are as they were.
  pub handle-Answered :
      let r = handle payloads same_target persist contexts id exiting input s in Answered r.0 r.1
  unfolding handle
  handle-Answered = read_case (read_frame input) refl
