-- ===== src/Sender/Queue/Reachable.antt =====
-- The queues that the methods of internal/sender/queue.go can lead to.
use go_xport.Common.{
  ℕ, suc, ◌≡◌, refl, ap, ◌∙◌, Bool, true, false, not, ◌&&◌, ◌||◌, List, [], ◌∷◌, Bytes, leb,
  Bool-cases, inl, inr, if◌then◌else◌,
}
use go_xport.Monitor.Tracker.{Tracker}
use go_xport.Sender.Folder.{Folder, FolderFaults, count_parked}
use go_xport.Sender.Items.{FileItem, Sorter}
use go_xport.Sender.Queue.{
  Queue, new_queue, pop, push, record_success, record_failure, stop, pop_from, quarantine, requeue,
  update_failed_count,
}
use go_xport.Sender.Queue.Invariant.{
  IsQueue, push-IsQueue, pop-IsQueue, record_success-IsQueue, stop-IsQueue, new_queue-IsQueue,
  record_failure-IsQueue,
}

-- The queues that the methods lead to. A failure is recorded for an item that is not in the queue.
pub data Reaches (sorter : Sorter) : Queue → Type 0 where
  made :
      (max_attempts : ℕ) (tracker : Tracker) (unreadable : Bool) (folder : Folder)
      → Reaches sorter (new_queue max_attempts tracker unreadable folder)
  pushed : (item : FileItem) {q : Queue} → Reaches sorter q → Reaches sorter (push sorter item q)
  popped : {q : Queue} → Reaches sorter q → Reaches sorter (pop q).1
  succeeded :
      (filename : Bytes) {q : Queue} → Reaches sorter q → Reaches sorter (record_success filename q)
  failed :
      (f : FolderFaults) (item : FileItem) (folder : Folder) {q : Queue}
      → q.in_queue item.filename ≡ false
      → Reaches sorter q
      → Reaches sorter (record_failure sorter f item (q, folder)).1.0
  halted : {q : Queue} → Reaches sorter q → Reaches sorter (stop q)

-- How many files `.failed` held when it was last read, which is at the start and behind each
-- quarantine; 0 if that has always failed.
abbrev pub last_count : {sorter : Sorter} {q : Queue} → Reaches sorter q → ℕ
last_count (made max_attempts tracker unreadable folder) =
    if unreadable then 0 else count_parked folder
last_count (pushed item r) = last_count r
last_count (popped r) = last_count r
last_count (succeeded filename r) = last_count r
last_count {sorter} (failed f item folder {q} away r) =
    let before = last_count r in
    let (quarantined, (next, moved)) = record_failure sorter f item (q, folder) in
    if quarantined && not f.read_dir then count_parked moved else before
last_count (halted r) = last_count r

keeps-IsQueue : (sorter : Sorter) (q : Queue) → Reaches sorter q → IsQueue q
keeps-IsQueue sorter _ (made max_attempts tracker unreadable folder) =
    new_queue-IsQueue max_attempts tracker unreadable folder
keeps-IsQueue sorter _ (pushed item {q} r) = push-IsQueue sorter item q (keeps-IsQueue sorter q r)
keeps-IsQueue sorter _ (popped {q} r) = pop-IsQueue q (keeps-IsQueue sorter q r)
keeps-IsQueue sorter _ (succeeded name {q} r) =
    record_success-IsQueue name q (keeps-IsQueue sorter q r)
keeps-IsQueue sorter _ (failed f item folder {q} away r) =
    record_failure-IsQueue sorter f item q folder (keeps-IsQueue sorter q r) away
keeps-IsQueue sorter _ (halted {q} r) = stop-IsQueue q (keeps-IsQueue sorter q r)

push-failed_count :
    (sorter : Sorter) (item : FileItem) (q : Queue)
    → (push sorter item q).failed_count ≡ q.failed_count
unfolding push
push-failed_count sorter item q = elim (Bool-cases (q.stopped || q.in_queue item.filename)) [
  | inl e ↦ rw e refl
  | inr e ↦ rw e refl
]

pop-failed_count : (q : Queue) → (pop q).1.failed_count ≡ q.failed_count
unfolding pop
pop-failed_count q = by_items q.items
  where
    by_items : (items : List FileItem) → (pop_from items q).1.failed_count ≡ q.failed_count
    by_items [] = refl
    by_items (item ∷ items) = refl

record_failure-failed_count :
    (sorter : Sorter) (f : FolderFaults) (item : FileItem) (q : Queue) (folder : Folder)
    → let (quarantined, (next, moved)) = record_failure sorter f item (q, folder) in
      next.failed_count
      ≡ (if quarantined && not f.read_dir then count_parked moved else q.failed_count)
unfolding record_failure quarantine update_failed_count requeue
record_failure-failed_count sorter f item q folder =
    elim (Bool-cases (leb q.max_attempts (suc (q.attempts item.filename)))) [
      | inl e ↦ elim (Bool-cases f.read_dir) [ inl a ↦ rw (e, a) refl | inr a ↦ rw (e, a) refl ]
      | inr e ↦ elim (Bool-cases (q.in_queue item.filename)) [
        | inl a ↦ rw (e, a) refl
        | inr a ↦ rw (e, a) refl
      ]
    ]

counts : (sorter : Sorter) (q : Queue) (r : Reaches sorter q) → q.failed_count ≡ last_count r
unfolding new_queue update_failed_count record_success stop
counts sorter _ (made max_attempts tracker true folder) = refl
counts sorter _ (made max_attempts tracker false folder) = refl
counts sorter _ (pushed item {q} r) = push-failed_count sorter item q ∙ counts sorter q r
counts sorter _ (popped {q} r) = pop-failed_count q ∙ counts sorter q r
counts sorter _ (succeeded name {q} r) = counts sorter q r
counts sorter _ (failed f item folder {q} away r) =
    let o = record_failure sorter f item (q, folder) in
    record_failure-failed_count sorter f item q folder
    ∙ ap (λ (n : ℕ). if o.0 && not f.read_dir then count_parked o.1.1 else n) (counts sorter q r)
counts sorter _ (halted {q} r) = counts sorter q r

-- In every queue that the methods lead to, when failures are recorded only for items that are not
-- in it: the map's keys are the names of the items, each there once, the oldest first; no file has
-- used up its attempts; and the tracker shows how many files wait, and how many files `.failed` held
-- when it was last read.
pub Reaches-IsQueue :
    (sorter : Sorter) (q : Queue) (r : Reaches sorter q)
    → IsQueue q × (q.tracker.failed_files ≡ last_count r)
Reaches-IsQueue sorter q r = let h = keeps-IsQueue sorter q r in (h, h.parked ∙ counts sorter q r)
