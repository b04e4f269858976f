-- ===== src/Monitor/Tracker.antt =====
-- Tracker of internal/monitor/status.go: its fields and the calls that update them. Times and
-- durations are nanoseconds; a call that reads the clock takes the time as `now`.
use go_xport.Common.{ℕ, ◌+◌, ◌%◌, ◌^◌, [], ◌∷◌, ◌++◌, List, Bytes, ◌==◌, if◌then◌else◌}

pub data Role : Type 0 where
  sender receiver : Role

pub record Tracker : Type 0 where
  pub node_id : Bytes
  pub role : Role
  pub start_time : ℕ
  pub disk_warn_pct : ℕ
  pub disk_fail_pct : ℕ
  pub stall_after : ℕ
  pub stale_after : ℕ
  pub files_total : ℕ
  pub bytes_total : ℕ
  pub errors_total : ℕ
  pub last_ok_time : ℕ
  pub recent_errors : List ℕ
  pub waiting_files : ℕ
  pub failed_files : ℕ
  pub active_connections : ℕ

-- A percentage that is not positive, 0 here, takes its default.
abbrev pub pct_or : ℕ → ℕ → ℕ
pct_or default pct = if pct == 0 then default else pct

pub new_tracker : Bytes → Role → ℕ → ℕ → ℕ → ℕ → ℕ → Tracker
new_tracker node_id role disk_warn_pct disk_fail_pct stall_after stale_after now = record {
  node_id = node_id;
  role = role;
  start_time = now;
  disk_warn_pct = pct_or 15 disk_warn_pct;
  disk_fail_pct = pct_or 5 disk_fail_pct;
  stall_after = stall_after;
  stale_after = stale_after;
  files_total = 0;
  bytes_total = 0;
  errors_total = 0;
  last_ok_time = now;
  recent_errors = [];
  waiting_files = 0;
  failed_files = 0;
  active_connections = 0;
}

-- The counters are `uint64`.
abbrev pub add64 : ℕ → ℕ → ℕ
add64 a b = (a + b) % 2 ^ 64

unfoldable pub record_success : ℕ → ℕ → Tracker → Tracker
record_success now bytes t = record t {
  files_total = add64 t.files_total 1;
  bytes_total = add64 t.bytes_total bytes;
  last_ok_time = now;
}

unfoldable pub record_error : ℕ → Tracker → Tracker
record_error now t = record t {
  errors_total = add64 t.errors_total 1;
  recent_errors = t.recent_errors ++ (now ∷ []);
}

unfoldable pub set_queue_counts : ℕ → ℕ → Tracker → Tracker
set_queue_counts waiting failed t = record t { waiting_files = waiting; failed_files = failed }

unfoldable pub set_active_connections : ℕ → Tracker → Tracker
set_active_connections count t = record t { active_connections = count }
