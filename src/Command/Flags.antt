-- ===== src/Command/Flags.antt =====
-- The flags of the subcommands of cmd/xport/main.go, and their defaults.
use go_xport.Common.{ℕ, ◌*◌, Bool, ◌||◌, [], Option, none, some, Bytes, codes, equal, if◌then◌else◌}

-- time.Second
abbrev pub second : ℕ
second = 1_000_000_000

-- `os.Hostname`, if there is one, is the argument.
unfoldable pub default_hostname : Option Bytes → Bytes
default_hostname none = codes "node"
default_hostname (some h) = if equal h [] then codes "node" else h

pub record KeygenFlags : Type 0 where
  pub name : Bytes
  pub days : ℕ

abbrev pub keygen_defaults : KeygenFlags
keygen_defaults = record { name = codes "node"; days = 3650 }

pub record SendFlags : Type 0 where
  pub dir : Bytes
  pub addr : Bytes
  pub cert : Bytes
  pub key : Bytes
  pub peer_fp : Bytes
  pub parallel : ℕ
  pub after : Bytes
  pub scan : ℕ
  pub max_attempts : ℕ
  pub name : Bytes
  pub status_addr : Bytes
  pub status_peer_fp : Bytes
  pub stall_after : ℕ
  pub disk_warn_pct : ℕ
  pub disk_fail_pct : ℕ

abbrev pub send_defaults : Bytes → SendFlags
send_defaults hostname = record {
  dir = codes "outbox";
  addr = [];
  cert = [];
  key = [];
  peer_fp = [];
  parallel = 1;
  after = codes "archive";
  scan = 1 * second;
  max_attempts = 10;
  name = hostname;
  status_addr = codes "127.0.0.1:9100";
  status_peer_fp = [];
  stall_after = 120 * second;
  disk_warn_pct = 15;
  disk_fail_pct = 5;
}

pub record RecvFlags : Type 0 where
  pub dir : Bytes
  pub listen : Bytes
  pub cert : Bytes
  pub key : Bytes
  pub peer_fp : Bytes
  pub max_size : Bytes
  pub name : Bytes
  pub status_addr : Bytes
  pub status_peer_fp : Bytes
  pub stale_after : ℕ
  pub disk_warn_pct : ℕ
  pub disk_fail_pct : ℕ

abbrev pub recv_defaults : Bytes → RecvFlags
recv_defaults hostname = record {
  dir = codes "incoming";
  listen = codes ":9000";
  cert = [];
  key = [];
  peer_fp = [];
  max_size = codes "64GiB";
  name = hostname;
  status_addr = codes "127.0.0.1:9101";
  status_peer_fp = [];
  stale_after = 0;
  disk_warn_pct = 15;
  disk_fail_pct = 5;
}

-- A required flag is empty.
unfoldable pub send_misses : SendFlags → Bool
send_misses f = equal f.addr [] || equal f.cert [] || equal f.key [] || equal f.peer_fp []

unfoldable pub recv_misses : RecvFlags → Bool
recv_misses f = equal f.cert [] || equal f.key [] || equal f.peer_fp []
