-- ===== src/Command/Recv.antt =====
-- runRecv of cmd/xport/main.go.
use go_xport.Common.{ℕ, Bool, List, [], ◌∷◌, Option, none, some, Bytes, if◌then◌else◌}
use go_xport.Command.{
  Outcome, running, failed, missing_flags, no_incoming_dir, no_fingerprints, ingress_not_started,
  bad_max_size,
}
use go_xport.Command.Flags.{RecvFlags, recv_misses}
use go_xport.Command.Status.{StatusServer, start_status}
use go_xport.Monitor.Server.{Host}
use go_xport.Monitor.Tracker.{Tracker, new_tracker, receiver}
use go_xport.Peers.{parse_fingerprints}
use go_xport.Receiver.Disk.{Disk}
use go_xport.Receiver.Server.{Server, Boot, StartError, new_server, start}
use go_xport.Wire.ByteSize.{Floats, Size, size, no_size, parse_byte_size}

-- What runRecv has started when it waits for a signal.
pub record Receiving : Type 0 where
  pub status : StatusServer
  pub server : Server
  pub disk : Disk

-- What the environment decides: what the status server meets, whether the directory can be made,
-- what Start of the ingress server meets, the files there, and the time.
pub record RecvEnv : Type 0 where
  pub host : Host
  pub make_dir : Bool
  pub boot : Boot
  pub disk : Disk
  pub now : ℕ

abbrev pub recv_tracker : RecvEnv → RecvFlags → Tracker
recv_tracker env f =
    new_tracker f.name receiver f.disk_warn_pct f.disk_fail_pct 0 f.stale_after env.now

abbrev pub recv_server : RecvEnv → RecvFlags → ℕ → List Bytes → Server
recv_server env f max_size allowed =
    new_server f.dir f.listen f.cert f.key allowed max_size (recv_tracker env f)

abbrev pub after_start : StatusServer → Option StartError × (Server × Disk) → Outcome Receiving
after_start status (none, (server, disk)) =
    running (record { status = status; server = server; disk = disk })
after_start status (some e, rest) = failed ingress_not_started

abbrev pub with_status :
    RecvEnv → RecvFlags → ℕ → List Bytes → Outcome StatusServer → Outcome Receiving
with_status env f max_size allowed (failed why) = failed why
with_status env f max_size allowed (running status) =
    after_start status (start env.boot (recv_server env f max_size allowed, env.disk))

abbrev pub with_peers : RecvEnv → RecvFlags → ℕ → List Bytes → Outcome Receiving
with_peers env f max_size [] = failed no_fingerprints
with_peers env f max_size (fp ∷ fps) =
    with_status env f max_size (fp ∷ fps)
      (start_status env.host f.status_addr f.cert f.key f.status_peer_fp)

abbrev pub with_size : RecvEnv → RecvFlags → Size → Outcome Receiving
with_size env f (no_size e) = failed bad_max_size
with_size env f (size max_size) =
    if env.make_dir
    then with_peers env f max_size (parse_fingerprints (f.peer_fp ∷ []))
    else failed no_incoming_dir

unfoldable pub run_recv : Floats → RecvEnv → RecvFlags → Outcome Receiving
run_recv fl env f =
    if recv_misses f then failed missing_flags else with_size env f (parse_byte_size fl f.max_size)
