-- ===== src/Tests/Startup.antt =====
-- A starter of a command master that finds a stale socket.
use winsh.Base.{
  ℕ, ◌≡◌, ◌≤◌, refl, true, false, none, some, [], ◌∷◌, leb, if◌then◌else◌, arith, ContextError,
  cancellation,
}
use winsh.Control.Protocol.{frame_result}
use winsh.Control.Wire.{no_category, code, WireResult, Decoder}
use winsh.Control.Sockets.{
  FileInfo, present, held, acquired, Flock, refused, socket_state, open_lock, probe_master,
}
use winsh.Control.Startup.{
  Trace, Target, Launch, Os, connected, launch_master, read_ready, bootstrap, replace_stale,
  start_locked, judge_probe, take_lock, start_rounds, start_or_connect,
}
use winsh.Control.Startup.Rounds.{waits, is_ended, start_rounds_end}

abbrev ready : WireResult
ready = record { exit_code = code 0; category = no_category }

abbrev decoder : Decoder
decoder = record { strict = λ b. some ready; loose = λ b. some ready }

abbrev socket : FileInfo
socket = record {
  is_dir = false;
  is_socket = true;
  is_regular = false;
  permissions = 384;
  owner = 1000;
}

abbrev lock_file : FileInfo
lock_file = record {
  is_dir = false;
  is_socket = false;
  is_regular = true;
  permissions = 384;
  owner = 1000;
}

abbrev target : Target
target = record { endpoint = 104 ∷ []; user = 117 ∷ []; target_host = [] }

abbrev launch : Launch
launch = record {
  pair = true;
  located = true;
  starts = true;
  connects = true;
  encodes = true;
  reply = some (frame_result, []);
  context = none;
}

-- Another starter holds the lock until this one waited once.
abbrev lock_after : ℕ → Flock
lock_after n = if leb 1 n then acquired else held

abbrev machine : Os
machine = record {
  uid = 1000;
  decoder = decoder;
  lstat = λ tr. present socket;
  dial = λ tr. refused;
  open_file = λ tr. some (some lock_file);
  flock = λ tr. lock_after (waits tr);
  wait = λ tr. if leb 1 (waits tr) then some cancellation else none;
  context = λ tr. none;
  remove = λ tr. true;
  resolve = λ tr. some target;
  launch = λ tr. launch;
}

machine_connected : (start_or_connect machine target 3 true true true).0 ≡ connected
unfolding start_or_connect start_rounds take_lock start_locked replace_stale bootstrap launch_master
    read_ready judge_probe open_lock socket_state probe_master
machine_connected = refl

one_wait : (tr : Trace) → 1 ≤ waits tr → (e : ContextError) × (machine.wait tr ≡ some e)
one_wait tr h = (cancellation, ground arith)

start_rounds_end_example : is_ended (start_rounds machine target 2 []).0 ≡ true
start_rounds_end_example = start_rounds_end machine target 1 one_wait 2 [] (omega arith)
