-- ===== src/Sender/Queue.antt =====
-- Queue of internal/sender/queue.go. Its mutex makes each method one step; the two maps are
-- functions, as a missing key of `attempts` reads 0. `tracker` is the sender's, shared with the
-- other parts, and never nil, as cmd/xport passes one.
pub mod Invariant
pub mod Reachable
pub mod Order
pub mod Attempts
use go_xport.Common.{
  ℕ, suc, ◌==◌, Bool, true, false, ◌||◌, List, [], ◌∷◌, ◌++◌, Bytes, equal, leb, length,
  if◌then◌else◌,
}
use go_xport.Monitor.Tracker.{Tracker, set_queue_counts}
use go_xport.Sender.Folder
use go_xport.Sender.Folder.{Folder, FolderFaults, rename, failed_path, count_parked}
use go_xport.Sender.Items.{FileItem, Sorter}

pub record Queue : Type 0 where
  pub max_attempts : ℕ
  pub tracker : Tracker
  pub items : List FileItem
  pub in_queue : Bytes → Bool
  pub attempts : Bytes → ℕ
  pub failed_count : ℕ
  pub stopped : Bool

-- A map with one key set.
abbrev pub put : {A : Type 0} → (Bytes → A) → Bytes → A → Bytes → A
put m key value k = if equal k key then value else m k

-- `SetQueueCounts(len(q.items), q.failedCount)`
abbrev pub counted : Queue → Queue
counted q = record q { tracker = set_queue_counts (length q.items) q.failed_count q.tracker }

-- The files of `.failed` are counted again, if the directory can be read.
unfoldable pub update_failed_count : Bool → Folder → Queue → Queue
update_failed_count unreadable folder q =
    counted (if unreadable then q else record q { failed_count = count_parked folder })

-- A number of attempts that is not positive, 0 here, takes its default.
unfoldable pub new_queue : ℕ → Tracker → Bool → Folder → Queue
new_queue max_attempts tracker unreadable folder = update_failed_count unreadable folder (record {
  max_attempts = if max_attempts == 0 then 10 else max_attempts;
  tracker = tracker;
  items = [];
  in_queue = λ name. false;
  attempts = λ name. 0;
  failed_count = 0;
  stopped = false;
})

-- Pop blocks, or finds the queue stopped and empty, or returns an item.
pub data Popped : Type 0 where
  blocked closed : Popped
  taken : FileItem → Popped

abbrev pub pop_from : List FileItem → Queue → Popped × Queue
pop_from [] q = (if q.stopped then closed else blocked, q)
pop_from (item ∷ items) q = (
  taken item,
  counted (record q { items = items; in_queue = put q.in_queue item.filename false }),
)

unfoldable pub pop : Queue → Popped × Queue
pop q = pop_from q.items q

unfoldable pub record_success : Bytes → Queue → Queue
record_success filename q = record q { attempts = put q.attempts filename 0 }

unfoldable pub stop : Queue → Queue
stop q = record q { stopped = true }

unfoldable pub len : Queue → ℕ
len q = length q.items

-- The rename's failure is only logged: the item is given up all the same.
unfoldable pub quarantine : FolderFaults → FileItem → Queue × Folder → Queue × Folder
quarantine f item (q, folder) =
    let moved = (rename f.rename_file item.path (failed_path item.filename) folder).1 in
    (
      update_failed_count f.read_dir moved (record q {
        attempts = put q.attempts item.filename 0;
        in_queue = put q.in_queue item.filename false;
      }),
      moved,
    )

module _ (sorter : Sorter) where
  unfoldable pub push : FileItem → Queue → Queue
  push item q =
      if q.stopped || q.in_queue item.filename
      then q
      else counted (record q {
        items = sorter.sort (q.items ++ (item ∷ []));
        in_queue = put q.in_queue item.filename true;
      })

  unfoldable pub requeue : FileItem → Queue → Queue
  requeue item q =
      if q.in_queue item.filename
      then q
      else counted (record q {
        items = sorter.sort (item ∷ q.items);
        in_queue = put q.in_queue item.filename true;
      })

  -- The Boolean is whether the file was quarantined.
  unfoldable pub record_failure : FolderFaults → FileItem → Queue × Folder → Bool × (Queue × Folder)
  record_failure f item (q, folder) =
      let count = suc (q.attempts item.filename) in
      let tried = record q { attempts = put q.attempts item.filename count } in
      if leb q.max_attempts count
      then (true, quarantine f item (tried, folder))
      else (false, (requeue item tried, folder))
