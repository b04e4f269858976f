-- ===== src/Receiver/Server.antt =====
-- Server of internal/receiver/listener.go: NewServer, Start, Close, acceptLoop and the deferred calls
-- of a handler, each call that other goroutines can see a step of its own. Package `tls` decides
-- whether the key pair can be loaded and the listener can be opened.
pub mod Handler
pub mod System
pub mod Parts
pub mod Starting
pub mod Steps
pub mod Counting
pub mod Guarded
pub mod Cutting
pub mod Staging
pub mod Acting
pub mod Framing
pub mod Moving
pub mod Lasting
pub mod Isolation
use go_xport.Common.{set, ℕ, ◌+◌, ◌-◌, ◌%◌, ◌^◌, Bool, false, List, Option, none, some, Bytes}
use go_xport.Monitor.Tracker.{Tracker, record_error, set_active_connections}
use go_xport.Peers.Config.{TlsConfig, new_server_config}
use go_xport.Receiver.Disk.{Disk, FilePath}
use go_xport.Receiver.Stager.{boot_cleanup}
use go_xport.Wire.Io.{Result, ok, err}

-- What tls.Listen opens.
pub record TlsListener : Type 0 where
  pub address : Bytes
  pub config : TlsConfig

-- `stopCh` is closed if `stopped`; `listener` is nil unless it is `some`; a connection is the number
-- of the Accept that gave it.
pub record Server : Type 0 where
  pub incoming_dir : Bytes
  pub listen_addr : Bytes
  pub cert_file : Bytes
  pub key_file : Bytes
  pub allowed_sender_fps : List Bytes
  pub max_size : ℕ
  pub tracker : Tracker
  pub listener : Option TlsListener
  pub active_conn_count : ℕ
  pub stopped : Bool
  pub conns : ℕ → Bool

unfoldable pub new_server : Bytes → Bytes → Bytes → Bytes → List Bytes → ℕ → Tracker → Server
new_server incoming_dir listen_addr cert_file key_file allowed_sender_fps max_size tracker =
    record {
      incoming_dir = incoming_dir;
      listen_addr = listen_addr;
      cert_file = cert_file;
      key_file = key_file;
      allowed_sender_fps = allowed_sender_fps;
      max_size = max_size;
      tracker = tracker;
      listener = none;
      active_conn_count = 0;
      stopped = false;
      conns = λ i. false;
    }

-- Why Start fails.
pub data StartError : Type 0 where
  cleanup_failed tls_config_failed listen_failed : StartError

-- What the environment decides in Start: whether `.staging` can be made, which files cannot be
-- removed, SHA-256 and the key pairs, and the address that is listened on, if any.
pub record Boot : Type 0 where
  pub make_dir : Bool
  pub stuck : FilePath → Bool
  pub sum256 : Bytes → Bytes
  pub load_key_pair : Bytes → Bytes → Option Bytes
  pub listens : Option Bytes

abbrev pub listen : Option Bytes → TlsConfig → Server → Option StartError × Server
listen none cfg s = (some listen_failed, s)
listen (some addr) cfg s =
    (none, record s { listener = some (record { address = addr; config = cfg }) })

abbrev pub with_config : Option Bytes → Option TlsConfig → Server → Option StartError × Server
with_config listens none s = (some tls_config_failed, s)
with_config listens (some cfg) s = listen listens cfg s

abbrev pub configure : Boot → Server → Option StartError × Server
configure b s =
    with_config b.listens
      (new_server_config b.sum256 b.load_key_pair s.cert_file s.key_file s.allowed_sender_fps) s

abbrev pub after_cleanup :
    Boot → Server → Result (Unit {0}) × Disk → Option StartError × (Server × Disk)
after_cleanup b s (err e, d) = (some cleanup_failed, (s, d))
after_cleanup b s (ok _, d) = let (failure, s') = configure b s in (failure, (s', d))

-- `none` is the nil error; the accept loop then runs.
unfoldable pub start : Boot → Server × Disk → Option StartError × (Server × Disk)
start b (s, d) = after_cleanup b s (boot_cleanup b.make_dir b.stuck d)

abbrev pub address_of : Option TlsListener → Option Bytes
address_of none = none
address_of (some l) = some l.address

unfoldable pub addr : Server → Option Bytes
addr s = address_of s.listener

-- `s.conns[conn] = struct{}{}` and `delete(s.conns, c)`, under the mutex
abbrev pub list_conn : ℕ → Bool → Server → Server
list_conn i is_open s = record s { conns = set s.conns i is_open }

-- `atomic.AddInt32` with 1 and with -1, on the 32 bits of the count.
abbrev pub add_conn : Server → Server
add_conn s = record s { active_conn_count = (s.active_conn_count + 1) % 2 ^ 32 }

abbrev pub subtract_conn : Server → Server
subtract_conn s = record s { active_conn_count = (s.active_conn_count + (2 ^ 32 - 1)) % 2 ^ 32 }

-- SetActiveConnections with a count that was loaded before.
abbrev pub publish : ℕ → Server → Server
publish count s = record s { tracker = set_active_connections count s.tracker }

abbrev pub count_error : ℕ → Server → Server
count_error now s = record s { tracker = record_error now s.tracker }
