-- ===== src/Command/Monitoring.antt =====
-- runMonitor of cmd/xport/main.go.
use go_xport.Common.{ℕ, ◌||◌, ◌*◌, [], List, Option, some, Bytes, Bool, equal, if◌then◌else◌}
use go_xport.Command.{exit_code, missing_flags}
use go_xport.Command.Flags.{second}
use go_xport.Monitor.Client.Polling.{Web, run_monitor}

pub record MonitorFlags : Type 0 where
  pub targets : Bytes
  pub cert : Bytes
  pub key : Bytes
  pub watch : ℕ
  pub timeout : ℕ

abbrev pub monitor_defaults : MonitorFlags
monitor_defaults = record {
  targets = [];
  cert = [];
  key = [];
  watch = 10 * second;
  timeout = 5 * second;
}

unfoldable pub monitor_misses : MonitorFlags → Bool
monitor_misses f = equal f.targets [] || equal f.cert [] || equal f.key []

-- The exit code; none where it goes on polling. The answers come within the timeout, or not at all.
unfoldable pub run_monitor_command :
    (Bytes → Bytes) → (Bytes → Bytes → Option Bytes) → (ℕ → Web) → List ℕ → MonitorFlags → Option ℕ
run_monitor_command sum256 load_key_pair webs order f =
    if monitor_misses f
    then some (exit_code missing_flags)
    else run_monitor sum256 load_key_pair f.cert f.key webs order f.watch f.targets
