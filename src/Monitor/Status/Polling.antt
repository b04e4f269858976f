-- ===== src/Monitor/Status/Polling.antt =====
-- Evaluate of internal/monitor/status.go purges old errors: what that changes for later calls.
use go_xport.Common.{ℕ, ◌≤◌, ◌≡◌, ap, Bool, [], ◌∷◌, List, Option, arith, refl, length}
use go_xport.Monitor.Tracker.{Tracker, Role, sender, receiver}
use go_xport.Monitor.Status.{
  DiskStats, status_of, Verdict, check_old_staging_files, StagingEntry, prune, verdict, evaluate,
  check_role, check_disk, check_sender, check_receiver,
}

-- A purge does not change what a later one keeps.
pub prune-prune :
    (now later : ℕ) (errors : List ℕ)
    → now ≤ later
    → prune later (prune now errors) ≡ prune later errors
unfolding prune
prune-prune now later [] h = refl
prune-prune now later (ts ∷ rest) h = ground (arith, prune-prune now later rest)

-- Only the count of recent errors is read of the list.
check_role-errors :
    (role : Role) (t : Tracker) (errors : List ℕ) (now recent : ℕ) (old : Bool) (v : Verdict)
    → check_role role (record t { recent_errors = errors }) now recent old v
      ≡ check_role role t now recent old v
unfolding check_role check_sender check_receiver
check_role-errors sender t errors now recent old v = refl
check_role-errors receiver t errors now recent old v = refl

verdict-evaluate :
    (now later : ℕ) (disk disk' : DiskStats) (staging staging' : Option (List StagingEntry))
    (t : Tracker)
    → now ≤ later
    → verdict (evaluate now disk staging t).1 later disk' staging' ≡ verdict t later disk' staging'
unfolding evaluate verdict check_disk
verdict-evaluate now later disk disk' staging staging' t h =
    rw (prune-prune now later t.recent_errors h) (
      check_role-errors t.role t (prune now t.recent_errors) later
        (length (prune later t.recent_errors)) (check_old_staging_files later staging') _)

-- A poll does not change the status that any later poll reports.
pub evaluate-evaluate :
    (now later : ℕ) (disk disk' : DiskStats) (staging staging' : Option (List StagingEntry))
    (t : Tracker)
    → now ≤ later
    → (evaluate later disk' staging' (evaluate now disk staging t).1).0
      ≡ (evaluate later disk' staging' t).0
unfolding evaluate
evaluate-evaluate now later disk disk' staging staging' t h =
    ap (status_of t later disk')
      (unfold evaluate in verdict-evaluate now later disk disk' staging staging' t h)
