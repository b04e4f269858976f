-- ===== src/Monitor/Status/Verdicts.antt =====
-- When Evaluate of internal/monitor/status.go reports OK, WARN and FAIL.
use go_xport.Common.{
  ℕ, ◌+◌, ◌-◌, ◌<◌, ◌≡◌, ◌≢◌, ◌⊎◌, inl, inr, ◌↔◌, Bool, true, false, ◌&&◌, [], List, Option, ltb,
  ◌==◌, if◌then◌else◌, arith, refl, length,
}
use mathlib.Core.List.{concat-ne-nil}
use go_xport.Monitor.Tracker.{Role, sender, receiver, Tracker}
use go_xport.Monitor.Status.{
  HealthState, ok, warn, fail, DiskStats, Issue, stalled, parked, errors_occurred, refusals,
  stale_staging, no_commits, disk_critical, disk_low, StagingEntry, Verdict, to_fail, to_warn,
  raise_warn, when, prune, check_old_staging_files, check_disk, check_sender, check_receiver,
  check_role, verdict, evaluate,
}

-- The disk is known and its free share is below the failure threshold.
abbrev pub DiskCritical : Tracker → DiskStats → Type 0
DiskCritical t disk = (0 < disk.total_bytes) × (disk.free_percent < t.disk_fail_pct)

-- A sender has files waiting and no success for longer than the set threshold.
abbrev pub IsStalled : Tracker → ℕ → Type 0
IsStalled t now =
    (t.role ≡ sender)
    × (0 < t.waiting_files)
    × (0 < t.stall_after)
    × (t.last_ok_time + t.stall_after < now)

-- OK and no issue, or an issue and not OK.
abbrev Agrees : Verdict → Type 0
Agrees v = ((v.state ≡ ok) × (v.issues ≡ [])) ⊎ ((v.state ≢ ok) × (v.issues ≢ []))

to_warn-Agrees : (issue : Issue) (v : Verdict) → Agrees (to_warn issue v)
to_warn-Agrees issue v = inr (raised v.state, concat-ne-nil issue v.issues)
  where
    raised : (s : HealthState) → raise_warn s ≢ ok
    raised ok h = cc
    raised warn h = cc
    raised fail h = cc

to_fail-Agrees : (issue : Issue) (v : Verdict) → Agrees (to_fail issue v)
to_fail-Agrees issue v = inr (λ h. cc, concat-ne-nil issue v.issues)

if-Agrees : (b : Bool) (v w : Verdict) → Agrees v → Agrees w → Agrees (if b then v else w)
if-Agrees true v w hv hw = hv
if-Agrees false v w hv hw = hw

warn_if-Agrees :
    (b : Bool) (issue : Issue) (v : Verdict) → Agrees v → Agrees (when b (to_warn issue) v)
warn_if-Agrees b issue v h = if-Agrees b (to_warn issue v) v (to_warn-Agrees issue v) h

check_disk-Agrees :
    (t : Tracker) (disk : DiskStats) (v : Verdict) → Agrees v → Agrees (check_disk t disk v)
unfolding check_disk
check_disk-Agrees t disk v h =
    let critical = disk_critical disk.free_percent t.disk_fail_pct in
    let low = disk_low disk.free_percent t.disk_warn_pct in
    let is_low = ltb disk.free_percent t.disk_warn_pct in
    let is_critical = ltb disk.free_percent t.disk_fail_pct in
    let v1 = when is_low (to_warn low) v in
    let h1 = warn_if-Agrees is_low low v h in
    let v2 = if is_critical then to_fail critical v else v1 in
    let h2 = if-Agrees is_critical (to_fail critical v) v1 (to_fail-Agrees critical v) h1 in
    if-Agrees (ltb 0 disk.total_bytes) v2 v h2 h

check_role-Agrees :
    (role : Role) (t : Tracker) (now recent : ℕ) (old : Bool) (v : Verdict)
    → Agrees v
    → Agrees (check_role role t now recent old v)
unfolding check_role check_sender check_receiver
check_role-Agrees sender t now recent old v h =
    let since = now - t.last_ok_time in
    let is_stalled = ltb 0 t.waiting_files && ltb 0 t.stall_after && ltb t.stall_after since in
    let v1 = when is_stalled (to_fail (stalled t.waiting_files since)) v in
    let h1 = if-Agrees is_stalled _ v (to_fail-Agrees (stalled t.waiting_files since) v) h in
    let v2 = when (ltb 0 t.failed_files) (to_warn (parked t.failed_files)) v1 in
    let h2 = warn_if-Agrees (ltb 0 t.failed_files) (parked t.failed_files) v1 h1 in
    warn_if-Agrees (ltb 0 recent) (errors_occurred recent) v2 h2
check_role-Agrees receiver t now recent old v h =
    let since = now - t.last_ok_time in
    let v1 = when (ltb 0 recent) (to_warn (refusals recent)) v in
    let h1 = warn_if-Agrees (ltb 0 recent) (refusals recent) v h in
    let idle_stale = t.active_connections == 0 && old in
    let v2 = when idle_stale (to_warn stale_staging) v1 in
    let h2 = warn_if-Agrees idle_stale stale_staging v1 h1 in
    warn_if-Agrees (ltb 0 t.stale_after && ltb t.stale_after since) (no_commits since t.stale_after)
      v2 h2

Agrees-iff : (v : Verdict) → Agrees v → (v.state ≡ ok) ↔ (v.issues ≡ [])
Agrees-iff v (inl (a, b)) = (λ _. b, λ _. a)
Agrees-iff v (inr (a, b)) = (λ h. absurd (a h), λ h. absurd (b h))

-- A node is OK exactly if it lists no issue.
pub evaluate-ok_iff :
    (now : ℕ) (disk : DiskStats) (staging : Option (List StagingEntry)) (t : Tracker)
    → ((evaluate now disk staging t).0.state ≡ ok)
      ↔ ((evaluate now disk staging t).0.active_issues ≡ [])
unfolding evaluate verdict
evaluate-ok_iff now disk staging t =
    let start : Verdict = record { state = ok; issues = [] } in
    let recent = length (prune now t.recent_errors) in
    let old = check_old_staging_files now staging in
    Agrees-iff (verdict t now disk staging) (
      check_role-Agrees t.role t now recent old (check_disk t disk start)
        (check_disk-Agrees t disk start (inl (refl, refl))))

check_disk-fail :
    (t : Tracker) (disk : DiskStats)
    → ((check_disk t disk (record { state = ok; issues = [] })).state ≡ fail) ↔ DiskCritical t disk
unfolding check_disk
check_disk-fail t disk = (λ h. ground arith, λ h. ground arith)

warn_if-fail :
    (b : Bool) (issue : Issue) (v : Verdict)
    → ((when b (to_warn issue) v).state ≡ fail) ↔ (v.state ≡ fail)
warn_if-fail b issue v = (λ h. ground arith, λ h. ground arith)

check_role-fail :
    (role : Role) (t : Tracker) (now recent : ℕ) (old : Bool) (v : Verdict)
    → t.role ≡ role
    → ((check_role role t now recent old v).state ≡ fail) ↔ ((v.state ≡ fail) ⊎ IsStalled t now)
unfolding check_role check_sender check_receiver
check_role-fail sender t now recent old v r = (λ h. ground arith, λ h. ground arith)
check_role-fail receiver t now recent old v r = (λ h. ground arith, λ h. ground arith)

-- A node is FAIL exactly if its disk is critically full, or it is a stalled sender; no number of
-- errors, parked files or stale files makes it so.
pub evaluate-fail_iff :
    (now : ℕ) (disk : DiskStats) (staging : Option (List StagingEntry)) (t : Tracker)
    → ((evaluate now disk staging t).0.state ≡ fail) ↔ (DiskCritical t disk ⊎ IsStalled t now)
unfolding evaluate verdict
evaluate-fail_iff now disk staging t =
    let recent = length (prune now t.recent_errors) in
    let old = check_old_staging_files now staging in
    let disk_verdict = check_disk t disk (record { state = ok; issues = [] }) in
    let (to, from) = check_role-fail t.role t now recent old disk_verdict refl in
    let (disk_to, disk_from) = check_disk-fail t disk in
    (
      λ h. elim (to h) [ inl d ↦ inl (disk_to d) | inr s ↦ inr s ],
      elim [ inl d ↦ from (inl (disk_from d)) | inr s ↦ from (inr s) ],
    )
