-- ===== src/Command/Send.antt =====
-- runSend of cmd/xport/main.go, with NewClientPool of internal/sender/client.go and NewScanner of
-- internal/sender/scanner.go.
use go_xport.Common.{ℕ, ◌*◌, ◌==◌, Bool, List, [], ◌∷◌, Bytes, if◌then◌else◌}
use go_xport.Command.{Outcome, running, failed, missing_flags, no_watch_dir, no_fingerprints}
use go_xport.Command.Flags.{SendFlags, send_misses, second}
use go_xport.Command.Status.{StatusServer, start_status}
use go_xport.Monitor.Server.{Host}
use go_xport.Monitor.Tracker.{Tracker, new_tracker, sender}
use go_xport.Peers.{parse_fingerprints}
use go_xport.Sender.Crew.{new_crew}
use go_xport.Sender.Daemon.{Daemon, started, close_scanner, close_pool, stop_queue}
use go_xport.Sender.Dial.{ClientPool, new_client_pool}
use go_xport.Sender.Folder.{Folder}

-- The interval of NewScanner.
unfoldable pub scan_interval : ℕ → ℕ
scan_interval interval = if interval == 0 then 1 * second else interval

-- What runSend has started when it waits for a signal; `daemon` is the goroutines.
pub record Sending : Type 0 where
  pub status : StatusServer
  pub pool : ClientPool
  pub interval : ℕ
  pub daemon : Daemon

-- What the environment decides: what the status server meets, whether the directory can be made and
-- whether `.failed` cannot be read, the files there, and the time.
pub record SendEnv : Type 0 where
  pub host : Host
  pub make_dir : Bool
  pub unreadable : Bool
  pub folder : Folder
  pub now : ℕ

abbrev pub send_tracker : SendEnv → SendFlags → Tracker
send_tracker env f =
    new_tracker f.name sender f.disk_warn_pct f.disk_fail_pct f.stall_after 0 env.now

abbrev pub with_status : SendEnv → SendFlags → List Bytes → Outcome StatusServer → Outcome Sending
with_status env f allowed (failed why) = failed why
with_status env f allowed (running status) = running (record {
  status = status;
  pool = new_client_pool f.dir f.addr f.cert f.key allowed f.parallel f.after;
  interval = scan_interval f.scan;
  daemon =
      started (new_client_pool f.dir f.addr f.cert f.key allowed f.parallel f.after).parallel
        (new_crew f.max_attempts (send_tracker env f) env.unreadable env.folder);
})

abbrev pub with_peers : SendEnv → SendFlags → List Bytes → Outcome Sending
with_peers env f [] = failed no_fingerprints
with_peers env f (fp ∷ fps) =
    with_status env f (fp ∷ fps) (start_status env.host f.status_addr f.cert f.key f.status_peer_fp)

unfoldable pub run_send : SendEnv → SendFlags → Outcome Sending
run_send env f =
    if send_misses f
    then failed missing_flags
    else if env.make_dir
    then with_peers env f (parse_fingerprints (f.peer_fp ∷ []))
    else failed no_watch_dir

-- What runSend does behind the signal, up to the wait in Stop of the pool.
unfoldable pub shut_down : Daemon → Daemon
shut_down d = stop_queue (close_pool (close_scanner d))
