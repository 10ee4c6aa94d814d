-- ===== src/Tests/Lanes.antt =====
-- Calls of an authenticated lane whose server breaks the connection.
use winsh.Base.{
  ◌≡◌, sym, ap, true, false, none, some, List, [], ◌∷◌, Error, All, has_mark, unsent,
  replay_refused,
}
use winsh.Remote.Poster.{
  Wire, Turn, http_error, http_answer, Poster, Call, posting, heartbeat, close_call, run_calls,
  post_locked,
}
use winsh.Remote.Poster.Replay.{IsHonest, Posts, post_locked-Posts}
use winsh.Remote.Poster.Silence.{HonestCall, LastFailure, run_calls-LastFailure}

-- No sealing, and every text is an envelope.
abbrev pub clear_wire : Wire
clear_wire = record {
  Security = Unit {0};
  seal = λ s m. (some m, s);
  unseal = λ s m. (some m, s);
  is_envelope = λ m. true;
  is_identified = λ m. true;
}

abbrev pub fresh : Poster clear_wire
fresh = record { encrypted = false; security = tt; failed = false; closed = false; last_used = 0 }

abbrev pub good : Turn
good = record {
  context = none;
  busy = false;
  now = 50;
  http = λ p. http_answer 200 true (1 ∷ []);
  wrote = true;
}

abbrev reset : Turn
reset = record { context = none; busy = false; now = 51; http = λ p. http_error []; wrote = true }

good-IsHonest : IsHonest good
good-IsHonest = record { unmarked = λ p e q. absurd (cc); refusing = λ p e q m. absurd (cc) }

no_error : (e : Error) → http_error [] ≡ http_error e → [] ≡ e
no_error e q = cc

reset-IsHonest : IsHonest reset
unfolding has_mark
reset-IsHonest = record {
  unmarked = λ p e q. ap (has_mark unsent) (sym (no_error e q));
  refusing = λ p e q m. absurd (cc (ap (has_mark replay_refused) (no_error e q), m));
}

post_locked-Posts_example : Posts clear_wire reset (post_locked clear_wire reset fresh (7 ∷ []))
post_locked-Posts_example = post_locked-Posts clear_wire reset fresh (7 ∷ []) reset-IsHonest

abbrev calls : List Call
calls = posting good (7 ∷ []) ∷ heartbeat reset 1 ∷ posting good (8 ∷ []) ∷ close_call ∷ []

calls-Honest : All HonestCall calls
calls-Honest = (good-IsHonest, (reset-IsHonest, (good-IsHonest, (tt, tt))))

run_calls-LastFailure_example : LastFailure (run_calls clear_wire calls fresh)
run_calls-LastFailure_example = run_calls-LastFailure clear_wire calls fresh calls-Honest
