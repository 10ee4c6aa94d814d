-- ===== src/Control/Startup/Rounds.antt =====
-- internal/control/master_unix.go: the loop of `StartOrConnect` ends.
use winsh.Base.{
  ℕ, zero, suc, ◌-◌, ◌<◌, ◌≤◌, ◌≡◌, refl, Bool, true, false, not, ◌&&◌, ◌||◌, Option, none, some,
  [], ◌∷◌, ◌==◌, if-elim, case_option, case_option-elim, arith, ContextError, context_error,
  Bool-cases, leb, leb→le, inl, inr,
}
use winsh.Control.Protocol
use winsh.Control.Wire.{Decoder, context_done, other_failure}
use winsh.Control.Sockets.{
  SocketState, unsafe_socket, no_socket, socket_exists, socket_state, case_state, open_lock, Flock,
  acquired, held, failed_lock, probe_master,
}
use winsh.Control.Startup.{
  inspected, probed, locked, lock_closed, waited, removed, resolved, Trace, Target, same_target,
  Launch, Os, Outcome, connected, failed, out_of_rounds, case_flock, is_empty_category, read_ready,
  launch_master, close_failed, bootstrap, replace_stale, start_locked, judge_probe, take_lock,
  start_rounds, is_unresponsive,
}

abbrev pub is_ended : Outcome → Bool
is_ended connected = true
is_ended (failed e) = true
is_ended out_of_rounds = false

abbrev pub Ends : Outcome × Trace → Type 0
Ends r = is_ended r.0 ≡ true

-- How often the starter waited for another one.
abbrev pub waits : Trace → ℕ
waits [] = 0
waits (waited ∷ tr) = suc (waits tr)
waits (e ∷ tr) = waits tr

launch_master-Ends :
    (decoder : Decoder) (l : Launch) (tr : Trace) → Ends (launch_master decoder l tr)
unfolding launch_master read_ready
launch_master-Ends decoder l tr =
    if-elim Ends (not (l.pair && l.located && l.starts)) (λ _. refl)
      (λ _.
        if-elim Ends (not (l.connects && l.encodes)) (λ _. refl)
          (λ _.
            case_option-elim Ends l.reply (λ _. refl)
              (λ r _.
                if-elim Ends (not (r.0 == winsh.Control.Protocol.frame_result)) (λ _. refl)
                  (λ _.
                    case_option-elim Ends (decoder.loose r.1) (λ _. refl)
                      (λ result _.
                        if-elim Ends (is_empty_category result.category) (λ _. refl)
                          (λ _. refl))))))

module _ (os : Os) (target : Target) where
  bootstrap-Ends : (tr : Trace) → Ends (bootstrap os target tr)
  unfolding bootstrap
  bootstrap-Ends tr =
      case_option-elim Ends (os.context tr)
        (λ _.
          case_option-elim Ends (os.resolve tr) (λ _. refl)
            (λ boot _.
              if-elim Ends (not (same_target boot target)) (λ _. refl)
                (λ _.
                  case_option-elim Ends (os.context (resolved ∷ tr))
                    (λ _. launch_master-Ends os.decoder (os.launch (resolved ∷ tr)) (resolved ∷ tr))
                    (λ e _. refl))))
        (λ e _. refl)

  start_locked-Ends : (tr : Trace) → Ends (start_locked os target tr)
  unfolding start_locked replace_stale
  start_locked-Ends tr = found (socket_state os.uid (os.lstat tr))
    where
      found :
          (s : SocketState)
          → let p = probe_master os.decoder (os.dial (inspected s ∷ tr)) in
            Ends (
              case_state s
                (close_failed other_failure (inspected s ∷ tr))
                (bootstrap os target (inspected s ∷ tr))
                (replace_stale os target p (probed p ∷ inspected s ∷ tr)))
      found unsafe_socket = refl
      found no_socket = bootstrap-Ends (inspected no_socket ∷ tr)
      found socket_exists =
          let p = probe_master os.decoder (os.dial (inspected socket_exists ∷ tr)) in
          let tr2 : Trace = probed p ∷ inspected socket_exists ∷ tr in
          if-elim Ends p.live (λ _. refl)
            (λ _.
              if-elim Ends p.connected (λ _. refl)
                (λ _.
                  if-elim Ends (os.remove tr2) (λ _. bootstrap-Ends (removed ∷ tr2)) (λ _. refl)))

  module _ (n : ℕ)
      (limit : (tr : Trace) → n ≤ waits tr → (e : ContextError) × (os.wait tr ≡ some e)) where
    take_lock-Ends :
        (again : Trace → Outcome × Trace) (tr : Trace)
        → (waits tr < n → Ends (again (waited ∷ lock_closed ∷ tr)))
        → Ends (take_lock os target again tr)
    unfolding take_lock
    take_lock-Ends again tr ih =
        if-elim Ends (not (open_lock os.uid (os.open_file tr))) (λ _. refl)
          (λ _. locked_ends (os.flock tr))
      where
        not_yet : os.wait (lock_closed ∷ tr) ≡ none → waits tr < n
        not_yet open' = elim (Bool-cases (leb n (waits tr))) [
          | inl le ↦
              let over = limit (lock_closed ∷ tr) (leb→le n (waits tr) le) in
              absurd (cc (over.1, open'))
          | inr lt ↦ ground arith
        ]

        locked_ends :
            (f : Flock)
            → Ends (
                case_flock f
                  (close_failed other_failure tr)
                  (case_option
                    (os.wait (lock_closed ∷ tr))
                    (again (waited ∷ lock_closed ∷ tr))
                    (λ e. close_failed (context_done (context_error e)) tr))
                  (start_locked os target (locked ∷ tr)))
        locked_ends failed_lock = refl
        locked_ends held =
            case_option-elim Ends (os.wait (lock_closed ∷ tr)) (λ open'. ih (not_yet open'))
              (λ e _. refl)
        locked_ends acquired = start_locked-Ends (locked ∷ tr)

    round-Ends :
        (again : Trace → Outcome × Trace) (s : SocketState) (tr : Trace)
        → ((t : Trace)
            → waits t ≡ waits tr
            → waits tr < n
            → Ends (again (waited ∷ lock_closed ∷ t)))
        → let p = probe_master os.decoder (os.dial (inspected s ∷ tr)) in
          Ends (
            case_state s
              (failed other_failure, inspected s ∷ tr)
              (take_lock os target again (inspected s ∷ tr))
              (case_option
                (judge_probe p)
                (take_lock os target again (probed p ∷ inspected s ∷ tr))
                (λ o. (o, probed p ∷ inspected s ∷ tr))))
    unfolding judge_probe
    round-Ends again unsafe_socket tr ih = refl
    round-Ends again no_socket tr ih =
        take_lock-Ends again (inspected no_socket ∷ tr) (ih (inspected no_socket ∷ tr) refl)
    round-Ends again socket_exists tr ih =
        let p = probe_master os.decoder (os.dial (inspected socket_exists ∷ tr)) in
        let tr2 : Trace = probed p ∷ inspected socket_exists ∷ tr in
        let next = take_lock-Ends again tr2 (ih tr2 refl) in
        let P : Option Outcome → Type 0 =
          λ o. Ends (case_option o (take_lock os target again tr2) (λ o'. (o', tr2))) in
        if-elim P p.live (λ _. refl)
          (λ _.
            case_option-elim P p.failure (λ _. next)
              (λ e _.
                if-elim P (not (is_unresponsive e) || not p.connected) (λ _. refl) (λ _. next)))

    -- The loop of `StartOrConnect` ends: where the startup's context is done once the starter has
    -- waited `n` times for the lock, `n` rounds and one are enough, whatever the operating system
    -- answers.
    pub start_rounds_end :
        (fuel : ℕ) (tr : Trace)
        → n - waits tr < fuel
        → is_ended (start_rounds os target fuel tr).0 ≡ true
    unfolding start_rounds
    start_rounds_end zero tr lt = absurd (omega arith)
    start_rounds_end (suc fuel) tr lt =
        round-Ends (λ t. start_rounds os target fuel t) (socket_state os.uid (os.lstat tr)) tr
          (λ t same less. start_rounds_end fuel (waited ∷ lock_closed ∷ t) (omega arith))
