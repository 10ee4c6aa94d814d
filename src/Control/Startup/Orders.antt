-- ===== src/Control/Startup/Orders.antt =====
-- internal/control/master_unix.go: the order of a starter's steps, and the end of `launchMaster`.
use winsh.Base.{
  ◌≡◌, refl, ap, ◌∙◌, ℕ, List, some, ==→eq, arith, Bool, true, false, not, ◌&&◌, ◌||◌, Option, [],
  ◌∷◌, ◌==◌, if-elim, case_option, case_option-elim,
}
use winsh.Control.Protocol
use winsh.Control.Wire.{WireResult, Decoder, ControlFailure, other_failure}
use winsh.Control.Sockets.{no_socket, socket_exists, Probe, probe_master}
use winsh.Control.Startup.{
  Event, inspected, probed, locked, lock_closed, waited, removed, resolved, started, killed, Trace,
  Target, same_target, Launch, Os, Outcome, connected, failed, out_of_rounds, case_flock,
  is_empty_category, kill_child, read_ready, launch_master, close_failed, bootstrap, replace_stale,
  start_locked, judge_probe, take_lock, start_rounds, start_or_connect,
}

-- The starter holds the lock.
abbrev pub holding : Trace → Bool
holding [] = false
holding (locked ∷ tr) = true
holding (lock_closed ∷ tr) = false
holding (e ∷ tr) = holding tr

-- The resolver has been called.
abbrev pub has_resolved : Trace → Bool
has_resolved [] = false
has_resolved (resolved ∷ tr) = true
has_resolved (e ∷ tr) = has_resolved tr

-- The last thing seen is a private socket to which the probe did not connect.
abbrev pub IsStale : Trace → Type 0
IsStale (probed p ∷ inspected socket_exists ∷ tr) = (p.live ≡ false) × (p.connected ≡ false)
IsStale _ = ⊥

-- The last thing seen or done leaves no socket at the path.
abbrev pub IsVacant : Trace → Type 0
IsVacant (inspected no_socket ∷ tr) = Unit {0}
IsVacant (removed ∷ tr) = Unit {0}
IsVacant _ = ⊥

abbrev pub IsResolved : Trace → Type 0
IsResolved (resolved ∷ tr) = Unit {0}
IsResolved _ = ⊥

abbrev pub IsStarted : Trace → Type 0
IsStarted (started ∷ tr) = Unit {0}
IsStarted _ = ⊥

-- What may be done at a point.
abbrev pub Allowed : Event → Trace → Type 0
Allowed locked tr = holding tr ≡ false
Allowed removed tr = (holding tr ≡ true) × IsStale tr
Allowed resolved tr = (holding tr ≡ true) × (has_resolved tr ≡ false) × IsVacant tr
Allowed started tr = (holding tr ≡ true) × IsResolved tr
Allowed killed tr = IsStarted tr
Allowed _ tr = Unit {0}

abbrev pub Disciplined : Trace → Type 0
Disciplined [] = Unit {0}
Disciplined (e ∷ tr) = Allowed e tr × Disciplined tr

-- A child was started and not killed.
abbrev pub has_child : Trace → Bool
has_child [] = false
has_child (started ∷ tr) = true
has_child (killed ∷ tr) = false
has_child (e ∷ tr) = has_child tr

IsResolved-has_resolved : (tr : Trace) → IsResolved tr → has_resolved tr ≡ true
IsResolved-has_resolved (resolved ∷ tr) i = refl
IsResolved-has_resolved [] i = absurd i
IsResolved-has_resolved (inspected x ∷ tr) i = absurd i
IsResolved-has_resolved (probed x ∷ tr) i = absurd i
IsResolved-has_resolved (locked ∷ tr) i = absurd i
IsResolved-has_resolved (lock_closed ∷ tr) i = absurd i
IsResolved-has_resolved (waited ∷ tr) i = absurd i
IsResolved-has_resolved (removed ∷ tr) i = absurd i
IsResolved-has_resolved (started ∷ tr) i = absurd i
IsResolved-has_resolved (killed ∷ tr) i = absurd i

-- No child runs before the resolver is called.
pub childless : (tr : Trace) → Disciplined tr → has_resolved tr ≡ false → has_child tr ≡ false
childless [] d r = refl
childless (resolved ∷ tr) d r = absurd (cc)
childless (started ∷ tr) d r = absurd (cc (IsResolved-has_resolved tr d.0.1, r))
childless (killed ∷ tr) d r = refl
childless (inspected x ∷ tr) d r = childless tr d.1 r
childless (probed x ∷ tr) d r = childless tr d.1 r
childless (locked ∷ tr) d r = childless tr d.1 r
childless (lock_closed ∷ tr) d r = childless tr d.1 r
childless (waited ∷ tr) d r = childless tr d.1 r
childless (removed ∷ tr) d r = childless tr d.1 r

-- The steps of `launchMaster` succeeded, and the child sent a result without a category.
pub record Ready (decoder : Decoder) (l : Launch) : Type 0 where
  pub launched : l.pair && l.located && l.starts && l.connects && l.encodes ≡ true
  pub payload : List ℕ
  pub result : WireResult
  pub replied : l.reply ≡ some (winsh.Control.Protocol.frame_result, payload)
  pub decoded : decoder.loose payload ≡ some result
  pub clean : is_empty_category result.category ≡ true

module _ (os : Os) where
  -- The probe that is made at a point, and that found a live master.
  abbrev pub Answers : Probe → Trace → Type 0
  Answers p tr = (p ≡ probe_master os.decoder (os.dial tr)) × (p.live ≡ true)

  -- A master answers at the path: a probe found it, or a child was started and became ready.
  abbrev pub Serves : Trace → Type 0
  Serves (probed p ∷ tr) = Answers p tr
  Serves (lock_closed ∷ probed p ∷ tr) = Answers p tr
  Serves (lock_closed ∷ started ∷ tr) = Ready os.decoder (os.launch tr)
  Serves _ = ⊥

  abbrev pub Reached : Outcome → Trace → Type 0
  Reached connected tr = Serves tr
  Reached (failed e) tr = has_child tr ≡ false
  Reached out_of_rounds tr = has_child tr ≡ false

  -- What holds of an outcome and its trace.
  pub record Orderly (r : Outcome × Trace) : Type 0 where
    pub disciplined : Disciplined r.1
    pub unlocked : holding r.1 ≡ false
    pub reached : Reached r.0 r.1

  pub closed-Orderly :
      (e : ControlFailure) (tr : Trace)
      → Disciplined tr
      → has_child tr ≡ false
      → Orderly (close_failed e tr)
  closed-Orderly e tr d c = record { disciplined = (tt, d); unlocked = refl; reached = c }

  module _ (tr : Trace) (d : Disciplined (started ∷ tr)) where
    killed-Orderly : (e : ControlFailure) → Orderly (kill_child e (started ∷ tr))
    killed-Orderly e = record { disciplined = (tt, (tt, d)); unlocked = refl; reached = refl }

    read_ready-Orderly :
        let l = os.launch tr in
        l.pair && l.located && l.starts ≡ true
        → l.connects && l.encodes ≡ true
        → Orderly (read_ready os.decoder l (started ∷ tr))
    unfolding read_ready
    read_ready-Orderly starting telling =
        let l = os.launch tr in
        case_option-elim Orderly l.reply (λ _. killed-Orderly _)
          (λ (kind, payload) got.
            if-elim Orderly (not (kind == winsh.Control.Protocol.frame_result))
              (λ _. killed-Orderly _)
              (λ final.
                let is_result : kind ≡ winsh.Control.Protocol.frame_result =
                  ==→eq kind winsh.Control.Protocol.frame_result (ground arith) in
                case_option-elim Orderly (os.decoder.loose payload) (λ _. killed-Orderly _)
                  (λ result decoded.
                    if-elim Orderly (is_empty_category result.category)
                      (λ clean. record {
                        disciplined = (tt, d);
                        unlocked = refl;
                        reached = record {
                          launched = ground arith;
                          payload = payload;
                          result = result;
                          replied = got ∙ ap (λ k. some (k, payload)) is_result;
                          decoded = decoded;
                          clean = clean;
                        };
                      })
                      (λ _. killed-Orderly _))))

  pub launch_master-Orderly :
      (tr : Trace)
      → Disciplined tr
      → holding tr ≡ true
      → IsResolved tr
      → has_child tr ≡ false
      → Orderly (launch_master os.decoder (os.launch tr) tr)
  unfolding launch_master
  launch_master-Orderly tr d h r c =
      let s : Disciplined (started ∷ tr) = ((h, r), d) in
      let l = os.launch tr in
      if-elim Orderly (not (l.pair && l.located && l.starts))
        (λ _. closed-Orderly other_failure tr d c)
        (λ starting.
          if-elim Orderly (not (l.connects && l.encodes)) (λ _. killed-Orderly tr s other_failure)
            (λ telling. read_ready-Orderly tr s (ground arith) (ground arith)))

  pub judged-Orderly :
      (tr : Trace) (next : Outcome × Trace)
      → Disciplined tr
      → holding tr ≡ false
      → has_child tr ≡ false
      → Orderly next
      → let p = probe_master os.decoder (os.dial tr) in
        Orderly (case_option (judge_probe p) next (λ o. (o, probed p ∷ tr)))
  unfolding judge_probe
  judged-Orderly tr next d h c n =
      let p = probe_master os.decoder (os.dial tr) in
      let P : Option Outcome → Type 0 =
        λ o. Orderly (case_option o next (λ o'. (o', probed p ∷ tr))) in
      if-elim P p.live
        (λ live. record { disciplined = (tt, d); unlocked = h; reached = (refl, live) })
        (λ _.
          case_option-elim P p.failure (λ _. n)
            (λ e _.
              if-elim P (not (winsh.Control.Startup.is_unresponsive e) || not p.connected)
                (λ _. record { disciplined = (tt, d); unlocked = h; reached = c }) (λ _. n)))
