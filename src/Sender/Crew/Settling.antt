-- ===== src/Sender/Crew/Settling.antt =====
-- What a worker's turn of internal/sender/client.go does to the queue's and the scanner's maps: they
-- change at the worker's own file only.
use go_xport.Common.{
  suc, ◌≡◌, refl, Bool, true, false, ◌||◌, Bytes, equal, leb, Bool-cases, inl, inr,
}
use go_xport.Monitor.Tracker.{record_error}
use go_xport.Sender.Folder.{Folder, FolderFaults}
use go_xport.Sender.Items.{FileItem, Sorter}
use go_xport.Sender.Queue.{Queue, put, record_failure, requeue, quarantine, update_failed_count}
use go_xport.Sender.Queue.{record_success}
use go_xport.Sender.Queue.Invariant.{put_self}
use go_xport.Sender.Scanner.{mark_completed}
use go_xport.Sender.Transfer.{transfer_file}
use go_xport.Sender.Worker.{
  AfterAction, Pool, Turn, with_tracker, fail_item, not_connected, settle, work_item,
}
use go_xport.Wire.Io.{Result, ok, err}

put_other :
    {A : Type 0} (m : Bytes → A) (key : Bytes) (value : A) (name : Bytes)
    → equal name key ≡ false
    → put m key value name ≡ m name
put_other m key value name ne = rw ne refl

-- A failure leaves the other files alone; a quarantined file is not in the queue.
record Failed (item : FileItem) (q : Queue) (o : Bool × Queue) : Type 0 where
  others : (name : Bytes) → equal name item.filename ≡ false → o.1.in_queue name ≡ q.in_queue name
  parked : o.0 ≡ true → o.1.in_queue item.filename ≡ false

recount-in_queue :
    (unreadable : Bool) (folder : Folder) (q : Queue)
    → (update_failed_count unreadable folder q).in_queue ≡ q.in_queue
unfolding update_failed_count
recount-in_queue true folder q = refl
recount-in_queue false folder q = refl

record_failure-Failed :
    (sorter : Sorter) (f : FolderFaults) (item : FileItem) (q : Queue) (folder : Folder)
    → let o = record_failure sorter f item (q, folder) in Failed item q (o.0, o.1.0)
unfolding record_failure quarantine requeue
record_failure-Failed sorter f item q folder =
    elim (Bool-cases (leb q.max_attempts (suc (q.attempts item.filename)))) [
      | inl e ↦ rw e (record {
        others = λ name ne. rw (recount-in_queue f.read_dir) (rw ne refl);
        parked = λ h. rw (recount-in_queue f.read_dir) (put_self q.in_queue item.filename false);
      })
      | inr e ↦ elim (Bool-cases (q.in_queue item.filename)) [
        | inl i ↦ rw (e, i) (record { others = λ name ne. refl; parked = λ h. absurd (cc) })
        | inr i ↦ rw (e, i) (record { others = λ name ne. rw ne refl; parked = λ h. absurd (cc) })
      ]
    ]

-- What a turn with the item leaves of the maps.
pub record Settled (item : FileItem) (p p' : Pool) : Type 0 where
  pub queue :
      (name : Bytes)
      → equal name item.filename ≡ false
      → p'.queue.in_queue name ≡ p.queue.in_queue name
  pub states : (name : Bytes) → equal name item.filename ≡ false → p'.states name ≡ p.states name
  pub self :
      p'.queue.in_queue item.filename ≡ true → p'.states item.filename ≡ p.states item.filename

module _ (sum256 : Bytes → Bytes) (sorter : Sorter) (after_action : AfterAction) where
  fail_item-Failed :
      (turn : Turn) (item : FileItem) (p : Pool)
      → let o = fail_item sum256 sorter after_action turn item p in
        Failed item p.queue (o.0, o.1.queue)
  unfolding fail_item
  fail_item-Failed turn item p =
      let t =
        record_failure-Failed sorter turn.faults item (with_tracker (record_error turn.now) p.queue)
          p.folder in
      record { others = t.others; parked = t.parked }

  settle-Settled :
      (turn : Turn) (item : FileItem) (p : Pool) (r : Result (Unit {0}))
      → p.queue.in_queue item.filename ≡ false
      → Settled item p (settle sum256 sorter after_action turn item p r).pool
  unfolding settle fail_item record_success mark_completed
  settle-Settled turn item p (ok _) away = record {
    queue = λ name ne. refl;
    states = λ name ne. rw ne refl;
    self = λ h. absurd (cc);
  }
  settle-Settled turn item p (err e) away =
      let f = fail_item-Failed turn item p in
      elim (Bool-cases (fail_item sum256 sorter after_action turn item p).0) [
        | inl parked ↦ record {
          queue = f.others;
          states = λ name ne. rw (parked, ne) refl;
          self = λ h. let there = f.parked parked in absurd (cc);
        }
        | inr kept ↦ record {
          queue = f.others;
          states = λ name ne. rw kept refl;
          self = λ h. rw kept refl;
        }
      ]

  pub work_item-Settled :
      (turn : Turn) (connected : Bool) (item : FileItem) (p : Pool)
      → p.queue.in_queue item.filename ≡ false
      → Settled item p (work_item sum256 sorter after_action turn connected item p).pool
  unfolding work_item not_connected fail_item
  work_item-Settled turn connected item p away = elim (Bool-cases (connected || turn.dials)) [
    | inl e ↦ rw e (
        settle-Settled turn item p (transfer_file sum256 turn.opened item.filename turn.link).0
          away)
    | inr e ↦ rw e (record {
      queue = (fail_item-Failed turn item p).others;
      states = λ name ne. refl;
      self = λ h. refl;
    })
  ]
