-- ===== src/Tests/Daemon.antt =====
-- `xport send` at a concrete run: it dials, and it is stopped.
use go_xport.Common.{
  ℕ, hex, split_from, Bytes, List, Option, Bool, ◌+◌, ◌≡◌, ◌≤◌, ◌⊎◌, refl, true, false, [], ◌∷◌,
  some, arith, codes, equal, split, to_lower, trim_space, trim_left, remove_byte,
}
use go_xport.Command.{running}
use go_xport.Command.Flags.{SendFlags, send_defaults, send_misses}
use go_xport.Command.Send.{Sending, SendEnv, send_tracker, scan_interval, run_send, shut_down}
use go_xport.Command.Shutdown.{run_send-HasStopped}
use go_xport.Command.Status.{start_status}
use go_xport.Monitor.Server.{Host, Server, plain, new_server, start}
use go_xport.Peers.{parse_parts, parse_fingerprints, normalize_fingerprint}
use go_xport.Sender.Dial.{action_of, new_client_pool}
use go_xport.Sender.Daemon.{
  Daemon, started, close_scanner, close_pool, stop_queue, put_place, ended, popping, polls,
  finds_end, Works, Runs, steps_by, here, works, new_daemon,
}
use go_xport.Sender.Daemon.Stopping.{HasStopped}
use go_xport.Sender.Queue.{new_queue, update_failed_count, pop, stop}
use go_xport.Sender.Worker.{AfterAction}
use go_xport.Command.Dialing.{IsChecked, run_send-Shows}
use go_xport.Sender.Dial.{Net, connection, no_deadlines, dial_persistent, dial, hand_shake}
use go_xport.Peers.{
  Verdict, accepted, refused, verify_peer_certificate, verify_der, is_matched, fingerprint_der,
}
use go_xport.Peers.Config.{new_client_config}
use go_xport.Peers.Trust.{Shows}
use go_xport.Wire.Deadline.{Deadlines, set_deadline, handshake_timeout}
use go_xport.Tests.Data.{toy_sum, length-toy_sum}
use go_xport.Tests.Sorting.{sorter}

abbrev host : Host
host = record {
  split_host = λ addr. some (codes "127.0.0.1");
  sum256 = toy_sum;
  load_key_pair = λ cert_file key_file. some (9 ∷ []);
  listens = some (codes "127.0.0.1:9100");
}

abbrev env : SendEnv
env = record { host = host; make_dir = true; unreadable = false; folder = []; now = 5 }

-- The fingerprint of the receiver's certificate.
abbrev fp : Bytes
fp = hex (toy_sum (5 ∷ []))

abbrev flags : SendFlags
flags = record (send_defaults (codes "n")) {
  addr = codes "h:1";
  cert = codes "c";
  key = codes "k";
  peer_fp = fp;
}

abbrev status : Server
status = record {
  bind_addr = flags.status_addr;
  cert_file = flags.cert;
  key_file = flags.key;
  status_peer_fp = flags.status_peer_fp;
  listener = some (plain (codes "127.0.0.1:9100"));
  closed = false;
}

abbrev sending : Sending
sending = record {
  status = status;
  pool =
      new_client_pool flags.dir flags.addr flags.cert flags.key (fp ∷ []) flags.parallel
        flags.after;
  interval = scan_interval flags.scan;
  daemon = new_daemon 1 flags.max_attempts (send_tracker env flags) env.unreadable env.folder;
}

up : run_send env flags ≡ running sending
unfolding run_send send_misses start_status new_server start equal parse_fingerprints parse_parts
    split normalize_fingerprint to_lower trim_space trim_left remove_byte new_client_pool started
    hex split_from
up = refl

-- The worker is on the way to Pop when the signal arrives.
abbrev waiting : Daemon
waiting = put_place 0 (popping false) sending.daemon

abbrev action : AfterAction
action = action_of sending.pool.after_action

waiting-Runs : Runs toy_sum sorter action sending.daemon 1 waiting
unfolding started
waiting-Runs = works here (polls 0 (omega arith) refl refl)

abbrev stopped : Daemon
stopped = put_place 0 ended (shut_down waiting)

stopped-Runs : Runs toy_sum sorter action (shut_down waiting) 1 stopped
unfolding started shut_down close_scanner close_pool stop_queue pop stop new_queue
    update_failed_count
stopped-Runs = works here (finds_end 0 (omega arith) refl refl)

run_send-HasStopped_example :
    ((i : ℕ) → steps_by toy_sum sorter action i stopped-Runs ≤ 3)
    × (HasStopped stopped ⊎ ((u : Daemon) × Works toy_sum sorter action stopped u))
run_send-HasStopped_example =
    run_send-HasStopped toy_sum sorter env flags sending 1 1 waiting stopped up waiting-Runs
      stopped-Runs

abbrev presented : Bytes → List Bytes
presented addr = (5 ∷ []) ∷ []

abbrev load : Bytes → Bytes → Option Bytes
load cert_file key_file = some (9 ∷ [])

abbrev is_accepted : Verdict → Bool
is_accepted accepted = true
is_accepted (refused e) = false

-- A network where the callback decides.
abbrev net : Net
net = record {
  connects = λ addr timeout. true;
  shakes_hands = λ addr cfg deadline. is_accepted (cfg.verify_peer (presented addr));
}

if_accepted : (v : Verdict) → is_accepted v ≡ true → v ≡ accepted
if_accepted accepted h = refl
if_accepted (refused e) h = absurd (cc)

net-IsChecked : IsChecked net presented
net-IsChecked = record {
  checked = λ addr cfg deadline h. if_accepted (cfg.verify_peer (presented addr)) h;
}

abbrev deadlines : Deadlines
deadlines = set_deadline (7 + handshake_timeout) no_deadlines

dials : dial_persistent toy_sum load net 7 sending.pool ≡ connection deadlines
unfolding dial_persistent dial hand_shake new_client_config verify_peer_certificate verify_der
    is_matched fingerprint_der parse_fingerprints parse_parts normalize_fingerprint split split_from
    trim_space trim_left hex remove_byte to_lower equal new_client_pool
dials = refl

run_send-Shows_example : Shows toy_sum (fp ∷ []) (presented flags.addr)
run_send-Shows_example =
    run_send-Shows toy_sum length-toy_sum load net presented env flags sending 7 deadlines
      net-IsChecked up dials
