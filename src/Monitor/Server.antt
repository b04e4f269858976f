-- ===== src/Monitor/Server.antt =====
-- internal/monitor/server.go: NewServer with its guard and its routes, Start, Close, Addr, and the
-- answers. What net.SplitHostPort takes for the host is an argument, none where it fails.
pub mod Guard
pub mod Health
pub mod Routes
use go_xport.Common.{
  ℕ, Bool, false, true, not, ◌&&◌, ◌||◌, List, [], ◌∷◌, Bytes, Option, none, some, codes, equal,
  if◌then◌else◌,
}
use go_xport.Monitor.Status.{
  HealthState, fail, DiskStats, Issue, NodeStatus, StagingEntry, evaluate,
}
use go_xport.Monitor.Tracker.{Role, Tracker}
use go_xport.Peers.Config.{TlsConfig, new_server_config}

-- How the listener is opened, with the address that it has: in the clear, or by TLS.
pub data Listener : Type 0 where
  plain : Bytes → Listener
  mutual_tls : Bytes → TlsConfig → Listener

-- `closed` is whether Close of the HTTP server has been called; the tracker is an argument of the
-- handlers.
pub record Server : Type 0 where
  pub bind_addr : Bytes
  pub cert_file : Bytes
  pub key_file : Bytes
  pub status_peer_fp : Bytes
  pub listener : Option Listener
  pub closed : Bool

-- Why Start fails.
pub data StartError : Type 0 where
  tls_config_failed listen_failed : StartError

-- The packages that NewServer and Start call, and the address that is listened on, if any.
pub record Host : Type 0 where
  pub split_host : Bytes → Option Bytes
  pub sum256 : Bytes → Bytes
  pub load_key_pair : Bytes → Bytes → Option Bytes
  pub listens : Option Bytes

abbrev pub host_or : Bytes → Option Bytes → Bytes
host_or bind_addr none = bind_addr
host_or bind_addr (some host) = host

abbrev pub is_loopback : Bytes → Bool
is_loopback host =
    equal host (codes "127.0.0.1") || equal host (codes "localhost") || equal host (codes "::1")

-- `none` is the nil error.
abbrev pub listen : Option Bytes → (Bytes → Listener) → Server → Option StartError × Server
listen none kind s = (some listen_failed, s)
listen (some addr) kind s = (none, record s { listener = some (kind addr) })

abbrev pub listen_tls : Option Bytes → Option TlsConfig → Server → Option StartError × Server
listen_tls listens none s = (some tls_config_failed, s)
listen_tls listens (some cfg) s = listen listens (λ addr. mutual_tls addr cfg) s

-- None is the security error.
unfoldable pub new_server : Host → Bytes → Bytes → Bytes → Bytes → Option Server
new_server host bind_addr cert_file key_file status_peer_fp =
    if not (is_loopback (host_or bind_addr (host.split_host bind_addr))) && equal status_peer_fp []
    then none
    else some (record {
      bind_addr = bind_addr;
      cert_file = cert_file;
      key_file = key_file;
      status_peer_fp = status_peer_fp;
      listener = none;
      closed = false;
    })

unfoldable pub start : Host → Server → Option StartError × Server
start host s =
    if is_loopback (host_or s.bind_addr (host.split_host s.bind_addr)) || equal s.status_peer_fp []
    then listen host.listens plain s
    else listen_tls host.listens
        (new_server_config host.sum256 host.load_key_pair s.cert_file s.key_file
          (s.status_peer_fp ∷ []))
        s

unfoldable pub close : Server → Server
close s = record s { closed = true }

abbrev pub address_of : Listener → Bytes
address_of (plain addr) = addr
address_of (mutual_tls addr cfg) = addr

abbrev pub address_of_any : Option Listener → Option Bytes
address_of_any none = none
address_of_any (some l) = some (address_of l)

unfoldable pub addr : Server → Option Bytes
addr s = address_of_any s.listener

-- An answer: its code, and what its text is made of; each line of the metrics has the node and the
-- role for labels.
pub data Response : Type 0 where
  moved : Bytes → Response
  not_found method_not_allowed : Response
  service_unavailable : List Issue → Response
  healthy : HealthState → Response
  status : NodeStatus → Response
  metrics : Bytes → Role → List (Bytes × ℕ) → Response

unfoldable pub code : Response → ℕ
code (moved path) = 301
code not_found = 404
code method_not_allowed = 405
code (service_unavailable issues) = 503
code (healthy state) = 200
code (status st) = 200
code (metrics node role samples) = 200

-- The number of a state.
abbrev pub state_val : HealthState → ℕ
state_val HealthState.ok = 0
state_val HealthState.warn = 1
state_val HealthState.fail = 2

abbrev pub samples : NodeStatus → List (Bytes × ℕ)
samples st =
    (codes "xport_state", state_val st.state)
    ∷ (codes "xport_files_total", st.files_total)
    ∷ (codes "xport_bytes_total", st.bytes_total)
    ∷ (codes "xport_pending_files", st.waiting_files)
    ∷ (codes "xport_failed_files", st.failed_files)
    ∷ (codes "xport_disk_free_percent", st.disk.free_percent)
    ∷ []

abbrev pub health_of : NodeStatus → HealthState → Response
health_of st fail = service_unavailable st.active_issues
health_of st state = healthy state

module _ (now : ℕ) (disk : DiskStats) (staging : Option (List StagingEntry)) where
  unfoldable pub handle_status : Bytes → Tracker → Response × Tracker
  handle_status method t =
      let (st, next) = evaluate now disk staging t in
      if equal method (codes "GET") then (status st, next) else (method_not_allowed, t)

  unfoldable pub handle_healthz : Bytes → Tracker → Response × Tracker
  handle_healthz method t =
      let (st, next) = evaluate now disk staging t in
      if equal method (codes "GET") then (health_of st st.state, next) else (method_not_allowed, t)

  unfoldable pub handle_metrics : Bytes → Tracker → Response × Tracker
  handle_metrics method t =
      let (st, next) = evaluate now disk staging t in
      if equal method (codes "GET")
      then (metrics st.node_id st.role (samples st), next)
      else (method_not_allowed, t)

  -- The routes of NewServer: a path that no pattern is equal to is not found.
  unfoldable pub route : Bytes → Bytes → Tracker → Response × Tracker
  route path method t =
      if equal path (codes "/status")
      then handle_status method t
      else if equal path (codes "/healthz")
      then handle_healthz method t
      else if equal path (codes "/metrics")
      then handle_metrics method t
      else (not_found, t)

  -- `ServeMux` redirects a path that is not clean, but for CONNECT; `clean_path` is its cleaning.
  unfoldable pub answer : (Bytes → Bytes) → Bytes → Bytes → Tracker → Response × Tracker
  answer clean_path path method t =
      if equal method (codes "CONNECT") || equal (clean_path path) path
      then route path method t
      else (moved (clean_path path), t)
