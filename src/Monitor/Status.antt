-- ===== src/Monitor/Status.antt =====
-- Evaluate of internal/monitor/status.go, with pruneErrors and checkOldStagingFiles. What
-- GetDiskStats (Disk) and `os.ReadDir` answer is an argument; an issue is its kind and the numbers
-- that its message shows.
pub mod Verdicts
pub mod Polling
pub mod Disk
use go_xport.Common.{
  ℕ, ◌+◌, ◌-◌, ◌*◌, ◌/◌, Bool, false, not, ◌&&◌, ◌||◌, [], ◌∷◌, ◌++◌, List, Option, none, some,
  Bytes, codes, ltb, ◌==◌, if◌then◌else◌, length, has_suffix,
}
use go_xport.Monitor.Tracker.{Role, sender, receiver, Tracker}

pub data HealthState : Type 0 where
  ok warn fail : HealthState

pub record DiskStats : Type 0 where
  pub total_bytes : ℕ
  pub free_bytes : ℕ
  pub free_percent : ℕ

pub data Issue : Type 0 where
  disk_critical disk_low stalled no_commits : ℕ → ℕ → Issue
  parked errors_occurred refusals : ℕ → Issue
  stale_staging : Issue

pub record NodeStatus : Type 0 where
  pub node_id : Bytes
  pub role : Role
  pub state : HealthState
  pub active_issues : List Issue
  pub uptime_seconds : ℕ
  pub files_total : ℕ
  pub bytes_total : ℕ
  pub errors_total : ℕ
  pub waiting_files : ℕ
  pub failed_files : ℕ
  pub last_ok_seconds : ℕ
  pub disk : DiskStats

abbrev pub second : ℕ
second = 1_000_000_000

abbrev pub minute : ℕ
minute = 60 * second

-- `ts.After(now.Add(-5 * time.Minute))`
abbrev pub is_recent : ℕ → ℕ → Bool
is_recent now ts = ltb now (ts + 5 * minute)

unfoldable pub prune : ℕ → List ℕ → List ℕ
prune now [] = []
prune now (ts ∷ rest) = let kept = prune now rest in if is_recent now ts then ts ∷ kept else kept

-- An entry of `.staging`; `none` where `entry.Info()` fails.
pub record StagingEntry : Type 0 where
  pub name : Bytes
  pub is_dir : Bool
  pub mod_time : Option ℕ

-- `info.ModTime().Before(now.Add(-10 * time.Minute))`
abbrev pub is_old : ℕ → Option ℕ → Bool
is_old now none = false
is_old now (some mod_time) = ltb (mod_time + 10 * minute) now

abbrev pub is_stale : ℕ → StagingEntry → Bool
is_stale now entry =
    not entry.is_dir && has_suffix entry.name (codes ".tmp") && is_old now entry.mod_time

-- `none` where the directory cannot be read
unfoldable pub check_old_staging_files : ℕ → Option (List StagingEntry) → Bool
check_old_staging_files now none = false
check_old_staging_files now (some []) = false
check_old_staging_files now (some (entry ∷ rest)) =
    is_stale now entry || check_old_staging_files now (some rest)

-- `state` and `issues` of the function.
pub record Verdict : Type 0 where
  pub state : HealthState
  pub issues : List Issue

abbrev pub to_fail : Issue → Verdict → Verdict
to_fail issue v = record { state = fail; issues = v.issues ++ (issue ∷ []) }

-- `if state != StateFail { state = StateWarn }`
abbrev pub raise_warn : HealthState → HealthState
raise_warn fail = fail
raise_warn _ = warn

abbrev pub to_warn : Issue → Verdict → Verdict
to_warn issue v = record { state = raise_warn v.state; issues = v.issues ++ (issue ∷ []) }

abbrev pub when : Bool → (Verdict → Verdict) → Verdict → Verdict
when b change v = if b then change v else v

-- Common disk checks.
unfoldable pub check_disk : Tracker → DiskStats → Verdict → Verdict
check_disk t disk v =
    if ltb 0 disk.total_bytes
    then if ltb disk.free_percent t.disk_fail_pct
      then to_fail (disk_critical disk.free_percent t.disk_fail_pct) v
      else if ltb disk.free_percent t.disk_warn_pct
      then to_warn (disk_low disk.free_percent t.disk_warn_pct) v
      else v
    else v

unfoldable pub check_sender : Tracker → ℕ → ℕ → Verdict → Verdict
check_sender t now recent v =
    let since = now - t.last_ok_time in
    let is_stalled = ltb 0 t.waiting_files && ltb 0 t.stall_after && ltb t.stall_after since in
    let v1 = when is_stalled (to_fail (stalled t.waiting_files since)) v in
    let v2 = when (ltb 0 t.failed_files) (to_warn (parked t.failed_files)) v1 in
    when (ltb 0 recent) (to_warn (errors_occurred recent)) v2

unfoldable pub check_receiver : Tracker → ℕ → ℕ → Bool → Verdict → Verdict
check_receiver t now recent old_staging v =
    let since = now - t.last_ok_time in
    let v1 = when (ltb 0 recent) (to_warn (refusals recent)) v in
    let v2 = when (t.active_connections == 0 && old_staging) (to_warn stale_staging) v1 in
    when (ltb 0 t.stale_after && ltb t.stale_after since) (to_warn (no_commits since t.stale_after))
      v2

unfoldable pub check_role : Role → Tracker → ℕ → ℕ → Bool → Verdict → Verdict
check_role sender t now recent old_staging = check_sender t now recent
check_role receiver t now recent old_staging = check_receiver t now recent old_staging

unfoldable pub verdict : Tracker → ℕ → DiskStats → Option (List StagingEntry) → Verdict
verdict t now disk staging =
    check_role t.role t now (length (prune now t.recent_errors))
      (check_old_staging_files now staging) (check_disk t disk (record { state = ok; issues = [] }))

abbrev pub status_of : Tracker → ℕ → DiskStats → Verdict → NodeStatus
status_of t now disk v = record {
  node_id = t.node_id;
  role = t.role;
  state = v.state;
  active_issues = v.issues;
  uptime_seconds = (now - t.start_time) / second;
  files_total = t.files_total;
  bytes_total = t.bytes_total;
  errors_total = t.errors_total;
  waiting_files = t.waiting_files;
  failed_files = t.failed_files;
  last_ok_seconds = (now - t.last_ok_time) / second;
  disk = disk;
}

-- The status, and the tracker with its old errors purged.
unfoldable pub evaluate :
    ℕ → DiskStats → Option (List StagingEntry) → Tracker → NodeStatus × Tracker
evaluate now disk staging t = (
  status_of t now disk (verdict t now disk staging),
  record t { recent_errors = prune now t.recent_errors },
)
