-- ===== src/Remote/Runner/Loop.antt =====
-- internal/remote/session.go: when the receive loop ends, and with what.
use winsh.Base.{
  ℕ, zero, suc, ◌-◌, ◌<◌, ◌≤◌, ◌≡◌, ◌≢◌, refl, sym, ap, ◌∙◌, true, none, some, [], ◌∷◌, ◌++◌,
  length, if-elim, case_option-elim, arith, Error, has_mark, operation_timeout, context_error,
}
use mathlib.Core.List.{append_assoc}
use winsh.Remote.Response.{
  Sink, Response, parse_response, receive_output, finished, Received, case_received-elim,
}
use winsh.Remote.Session.{
  receive_lane, receive, Exchange, History, Network, post, case_outcome, case_outcome-elim,
  case_parsed, case_parsed-elim,
}
use winsh.Remote.Session.Fate.{Added}
use winsh.Remote.Runner.{
  Clock, LoopEnd, exited, broke, out_of_rounds, receive_loop, is_context_done,
}

-- The exchanges of a call, of which nothing else is said.
abbrev pub Extends : History → History → Type 0
Extends h h' = Added (λ _. Unit {0}) h h'

pub Extends-cons : (x : Exchange) (h h' : History) → Extends (x ∷ h) h' → Extends h h'
Extends-cons x h h' a = record {
  new = a.new ++ (x ∷ []);
  extends = a.extends ∙ sym (append_assoc a.new (x ∷ []) h);
  shows = tt;
}

pub Extends-trans : (h h' h'' : History) → Extends h h' → Extends h' h'' → Extends h h''
Extends-trans h h' h'' a b = record {
  new = b.new ++ a.new;
  extends = b.extends ∙ ap (◌++◌ b.new) a.extends ∙ sym (append_assoc b.new a.new h);
  shows = tt;
}

module _ (net : Network) (clock : Clock) (sink : Sink) where
  open sink use {State}

  pub receive_loop-Extends :
      (fuel : ℕ) (h : History) (s : State) → Extends h (receive_loop net clock sink fuel h s).1
  unfolding receive_loop post
  receive_loop-Extends zero h s = record { new = []; extends = refl; shows = tt }
  receive_loop-Extends (suc fuel) h s =
      let P : LoopEnd × History × State → Type 0 = λ r. Extends h r.1 in
      let o = net receive_lane receive h in
      let x : Exchange = record { lane = receive_lane; message = receive; outcome = o } in
      let one : Extends h (x ∷ h) = record { new = x ∷ []; extends = refl; shows = tt } in
      let again : (t : State) → Extends h (receive_loop net clock sink fuel (x ∷ h) t).1 =
        λ t. Extends-cons x h _ (receive_loop-Extends fuel (x ∷ h) t) in
      case_option-elim P (clock h)
        (λ _.
          case_outcome-elim P o
            (λ e _. if-elim P (has_mark operation_timeout e) (λ _. again s) (λ _. one))
            (λ r _.
              case_parsed-elim P (parse_response r)
                (λ e _. if-elim P (has_mark operation_timeout e) (λ _. again s) (λ _. one))
                (λ response _.
                  case_received-elim P (receive_output sink response s).0 (λ e _. one)
                    (λ _. again (receive_output sink response s).1) (λ code _. one))))
        (λ e _. record { new = []; extends = refl; shows = tt })

  -- The receive loop ends: where the context is done once `n` exchanges have been made, `n` rounds
  -- and one are enough from any history, whatever the connection answers.
  pub receive_loop_ends :
      (n fuel : ℕ) (h : History) (s : State)
      → ((h' : History) → n ≤ length h' → is_context_done (clock h') ≡ true)
      → n - length h < fuel
      → (receive_loop net clock sink fuel h s).0 ≢ out_of_rounds
  unfolding receive_loop post
  receive_loop_ends n zero h s limit e = absurd (omega arith)
  receive_loop_ends n (suc fuel) h s limit lt =
      let P : LoopEnd × History × State → Type 0 = λ r. (r.0 ≢ out_of_rounds) in
      let o = net receive_lane receive h in
      let x : Exchange = record { lane = receive_lane; message = receive; outcome = o } in
      let ended : (e : Error) → broke e ≢ out_of_rounds = λ e c. cc in
      case_option-elim P (clock h)
        (λ open'.
          let again : (t : State) → (receive_loop net clock sink fuel (x ∷ h) t).0 ≢ out_of_rounds =
            λ t. receive_loop_ends n fuel (x ∷ h) t limit (earlier open') in
          case_outcome-elim P o
            (λ e _. if-elim P (has_mark operation_timeout e) (λ _. again s) (λ _. ended e))
            (λ r _.
              case_parsed-elim P (parse_response r)
                (λ e _. if-elim P (has_mark operation_timeout e) (λ _. again s) (λ _. ended e))
                (λ response _.
                  case_received-elim P (receive_output sink response s).0 (λ e _. ended e)
                    (λ _. again (receive_output sink response s).1) (λ code _ c. absurd (cc)))))
        (λ e _. ended (context_error e))
    where
      earlier : clock h ≡ none → n - suc (length h) < fuel
      earlier open' = ground (arith, limit h)

  -- What stands behind an exit code of the loop: the reply of its last exchange.
  pub record Exited (code : ℕ) (h' : History) (t : State) : Type 0 where
    pub answer : Response
    pub before : State
    pub last : Exchange
    pub earlier : History
    pub history : h' ≡ last ∷ earlier
    pub received : last.message ≡ receive
    pub replied :
        case_outcome last.outcome
          (λ _. none)
          (λ r. case_parsed (parse_response r) (λ _. none) (λ a. some a))
        ≡ some answer
    pub finishes : receive_output sink answer before ≡ (finished code, t)

  both :
      (r : Received × State) (n : ℕ) (t : State) → r.0 ≡ finished n → r.1 ≡ t → r ≡ (finished n, t)
  both (a, b) n t p q = cc

  code_of : (n : ℕ) {code : ℕ} → exited n ≡ exited code → n ≡ code
  code_of n e = cc

  -- An exit code of the receive loop comes from the reply to its last Receive, in which
  -- `response.receive` found the command finished with this code.
  pub receive_loop-Exited :
      (fuel : ℕ) (h h' : History) (s t : State) (code : ℕ)
      → receive_loop net clock sink fuel h s ≡ (exited code, h', t)
      → Exited code h' t
  unfolding receive_loop post
  receive_loop-Exited zero h h' s t code e = absurd (cc)
  receive_loop-Exited (suc fuel) h h' s t code e =
      let P : LoopEnd × History × State → Type 0 =
        λ r. (r ≡ (exited code, h', t) → Exited code h' t) in
      let o = net receive_lane receive h in
      let x : Exchange = record { lane = receive_lane; message = receive; outcome = o } in
      let again : (u : State) → P (receive_loop net clock sink fuel (x ∷ h) u) =
        λ u. receive_loop-Exited fuel (x ∷ h) h' u t code in
      case_option-elim P (clock h)
        (λ _.
          case_outcome-elim P o
            (λ e _. if-elim P (has_mark operation_timeout e) (λ _. again s) (λ _ q. absurd (cc)))
            (λ r replied.
              case_parsed-elim P (parse_response r)
                (λ e _.
                  if-elim P (has_mark operation_timeout e) (λ _. again s) (λ _ q. absurd (cc)))
                (λ response read.
                  case_received-elim P (receive_output sink response s).0 (λ e _ q. absurd (cc))
                    (λ _. again (receive_output sink response s).1)
                    (λ n got q. record {
                      answer = response;
                      before = s;
                      last = x;
                      earlier = h;
                      history = sym (ap (λ (z : LoopEnd × History × State). z.1) q);
                      received = refl;
                      replied = rw (replied, read);
                      finishes =
                          both (receive_output sink response s) n t got
                            (ap (λ (z : LoopEnd × History × State). z.2) q)
                          ∙ ap (λ c. (finished c, t))
                              (code_of n (ap (λ (z : LoopEnd × History × State). z.0) q));
                    }))))
        (λ _ _ q. absurd (cc)) e
