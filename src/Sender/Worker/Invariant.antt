-- ===== src/Sender/Worker/Invariant.antt =====
-- The queue stays well-formed through every turn of a worker of internal/sender/client.go.
use go_xport.Common.{◌∙◌, ◌≡◌, refl, Bool, false, ◌||◌, Bytes, Bool-cases, inl, inr}
use go_xport.Monitor.Tracker
use go_xport.Monitor.Tracker.{Tracker, record_error}
use go_xport.Sender.Items.{FileItem, Sorter}
use go_xport.Sender.Queue.{Queue, Popped, pop, record_success}
use go_xport.Sender.Queue.Invariant.{
  IsQueue, pop-IsQueue, record_success-IsQueue, record_failure-IsQueue,
}
use go_xport.Sender.Queue.Order.{Pops, pop-Pops}
use go_xport.Sender.Transfer.{transfer_file}
use go_xport.Sender.Worker.{
  AfterAction, Pool, Turn, with_tracker, fail_item, not_connected, settle, work_item, after_pop,
  work,
}
use go_xport.Wire.Io.{Result, ok, err}

-- A change of the tracker that leaves the counts of the queue alone.
pub with_tracker-IsQueue :
    (change : Tracker → Tracker) (q : Queue)
    → ((change q.tracker).waiting_files ≡ q.tracker.waiting_files)
    → ((change q.tracker).failed_files ≡ q.tracker.failed_files)
    → IsQueue q
    → IsQueue (with_tracker change q)
with_tracker-IsQueue change q waits parks h = record {
  keys = h.keys;
  distinct = h.distinct;
  sorted = h.sorted;
  tries = h.tries;
  waiting = waits ∙ h.waiting;
  parked = parks ∙ h.parked;
}

module _ (sum256 : Bytes → Bytes) (sorter : Sorter) (after_action : AfterAction) where
  fail_item-IsQueue :
      (turn : Turn) (item : FileItem) (p : Pool)
      → IsQueue p.queue
      → p.queue.in_queue item.filename ≡ false
      → IsQueue (fail_item sum256 sorter after_action turn item p).1.queue
  unfolding fail_item record_error
  fail_item-IsQueue turn item p h away =
      record_failure-IsQueue sorter turn.faults item (with_tracker (record_error turn.now) p.queue)
        p.folder (with_tracker-IsQueue (record_error turn.now) p.queue refl refl h) away

  settle-IsQueue :
      (turn : Turn) (item : FileItem) (p : Pool) (r : Result (Unit {0}))
      → IsQueue p.queue
      → p.queue.in_queue item.filename ≡ false
      → IsQueue (settle sum256 sorter after_action turn item p r).pool.queue
  unfolding settle Tracker.record_success
  settle-IsQueue turn item p (ok _) h away =
      with_tracker-IsQueue (Tracker.record_success turn.now item.size)
        (record_success item.filename p.queue) refl refl
        (record_success-IsQueue item.filename p.queue h)
  settle-IsQueue turn item p (err e) h away = fail_item-IsQueue turn item p h away

  pub work_item-IsQueue :
      (turn : Turn) (connected : Bool) (item : FileItem) (p : Pool)
      → IsQueue p.queue
      → p.queue.in_queue item.filename ≡ false
      → IsQueue (work_item sum256 sorter after_action turn connected item p).pool.queue
  unfolding work_item not_connected
  work_item-IsQueue turn connected item p h away = elim (Bool-cases (connected || turn.dials)) [
    | inl e ↦ rw e (
        settle-IsQueue turn item p (transfer_file sum256 turn.opened item.filename turn.link).0 h
          away)
    | inr e ↦ rw e (fail_item-IsQueue turn item p h away)
  ]

  after_pop-IsQueue :
      (turn : Turn) (connected : Bool) (p : Pool) (o : Popped × Queue)
      → IsQueue p.queue
      → IsQueue o.1
      → Pops p.queue o
      → IsQueue (after_pop sum256 sorter after_action turn connected p o).pool.queue
  unfolding after_pop
  after_pop-IsQueue turn connected p (_, _) h hq (Pops.waits e s) = h
  after_pop-IsQueue turn connected p (_, _) h hq (Pops.ends e s) = h
  after_pop-IsQueue turn connected p (_, _) h hq (Pops.gives {item} {next} e oldest away waits) =
      work_item-IsQueue turn connected item (record p { queue = next }) hq away

  -- Whatever happens in a turn of a worker, a well-formed queue stays well-formed.
  pub work-IsQueue :
      (turn : Turn) (connected : Bool) (p : Pool)
      → IsQueue p.queue
      → IsQueue (work sum256 sorter after_action turn connected p).pool.queue
  unfolding work
  work-IsQueue turn connected p h = elim (Bool-cases turn.halted) [
    | inl e ↦ rw e h
    | inr e ↦ simp e (
        after_pop-IsQueue turn connected p (pop p.queue) h (pop-IsQueue p.queue h)
          (pop-Pops p.queue h))
  ]
