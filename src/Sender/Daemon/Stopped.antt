-- ===== src/Sender/Daemon/Stopped.antt =====
-- A queue of internal/sender/queue.go that is stopped stays so, whatever the goroutines do.
use go_xport.Common.{
  ℕ, suc, ◌≡◌, refl, sym, ap, ◌∙◌, Bool, true, ◌||◌, List, [], ◌∷◌, leb, Bool-cases, inl, inr,
  Bytes,
}
use go_xport.Monitor.Tracker.{record_error}
use go_xport.Sender.Crew.{scanned}
use go_xport.Sender.Daemon.{
  Daemon, close_pool, stop_queue, close_scanner, Works, polls, leaves, takes, finds_end, settles,
  Others, scans, reads_nothing, ends_scans, closes_scanner, closes_pool, stops_queue, changes, Runs,
  here, works, others,
}
use go_xport.Sender.Folder.{Folder, FolderFaults}
use go_xport.Sender.Items.{FileItem, Sorter}
use go_xport.Sender.Queue.{
  Queue, Popped, push, pop, pop_from, stop, requeue, quarantine, record_failure, record_success,
  update_failed_count,
}
use go_xport.Sender.Scanner.{scan_once, push_all}
use go_xport.Sender.Transfer.{transfer_file}
use go_xport.Sender.Worker.{
  AfterAction, Pool, Turn, with_tracker, fail_item, not_connected, settle, work_item,
}
use go_xport.Wire.Io.{Result, ok, err}

-- Push does nothing on a stopped queue.
push_all-stopped :
    (sorter : Sorter) (items : List FileItem) (q : Queue)
    → q.stopped ≡ true
    → push_all sorter items q ≡ q
unfolding push_all push
push_all-stopped sorter [] q h = refl
push_all-stopped sorter (item ∷ items) q h =
    let same : push sorter item q ≡ q = rw h refl in
    ap (push_all sorter items) same ∙ push_all-stopped sorter items q h

pop-stopped : (q : Queue) → (pop q).1.stopped ≡ q.stopped
unfolding pop
pop-stopped q = by_items q.items
  where
    by_items : (items : List FileItem) → (pop_from items q).1.stopped ≡ q.stopped
    by_items [] = refl
    by_items (item ∷ items) = refl

record_failure-stopped :
    (sorter : Sorter) (f : FolderFaults) (item : FileItem) (q : Queue) (folder : Folder)
    → (record_failure sorter f item (q, folder)).1.0.stopped ≡ q.stopped
unfolding record_failure quarantine requeue update_failed_count
record_failure-stopped sorter f item q folder =
    elim (Bool-cases (leb q.max_attempts (suc (q.attempts item.filename)))) [
      | inl e ↦ elim (Bool-cases f.read_dir) [ inl a ↦ rw (e, a) refl | inr a ↦ rw (e, a) refl ]
      | inr e ↦ elim (Bool-cases (q.in_queue item.filename)) [
        | inl a ↦ rw (e, a) refl
        | inr a ↦ rw (e, a) refl
      ]
    ]

module _ (sum256 : Bytes → Bytes) (sorter : Sorter) (after_action : AfterAction) where
  settle-stopped :
      (turn : Turn) (item : FileItem) (p : Pool) (r : Result (Unit {0}))
      → (settle sum256 sorter after_action turn item p r).pool.queue.stopped ≡ p.queue.stopped
  unfolding settle record_success fail_item
  settle-stopped turn item p (ok u) = refl
  settle-stopped turn item p (err e) =
      record_failure-stopped sorter turn.faults item (with_tracker (record_error turn.now) p.queue)
        p.folder

  work_item-stopped :
      (turn : Turn) (connected : Bool) (item : FileItem) (p : Pool)
      → (work_item sum256 sorter after_action turn connected item p).pool.queue.stopped
        ≡ p.queue.stopped
  unfolding work_item not_connected fail_item
  work_item-stopped turn connected item p = elim (Bool-cases (connected || turn.dials)) [
    | inl e ↦
        rw e
          (settle-stopped turn item p (transfer_file sum256 turn.opened item.filename turn.link).0)
    | inr e ↦ rw e (
        record_failure-stopped sorter turn.faults item
          (with_tracker (record_error turn.now) p.queue) p.folder)
  ]

  Works-stopped :
      {s t : Daemon}
      → Works sum256 sorter after_action s t
      → t.crew.pool.queue.stopped ≡ s.crew.pool.queue.stopped
  Works-stopped (polls i lt e runs) = refl
  Works-stopped (leaves i lt e stopped) = refl
  Works-stopped {s} (takes i lt e popped) =
      ap (λ (o : Popped × Queue). o.1.stopped) (sym popped) ∙ pop-stopped s.crew.pool.queue
  Works-stopped (finds_end i lt e popped) = refl
  Works-stopped {s} (settles i {connected} turn front {item} back lt e busy halts) =
      work_item-stopped turn connected item s.crew.pool

  Others-stopped :
      {s t : Daemon}
      → s.crew.pool.queue.stopped ≡ true
      → Others sum256 sorter after_action s t
      → t.crew.pool.queue.stopped ≡ true
  unfolding close_pool stop_queue close_scanner scanned scan_once stop
  Others-stopped {s} h (scans entries runs once seen) =
      ap (λ (q : Queue). q.stopped) (push_all-stopped sorter _ s.crew.pool.queue h) ∙ h
  Others-stopped h (reads_nothing runs) = h
  Others-stopped h (ends_scans e stopped) = h
  Others-stopped h closes_scanner = h
  Others-stopped h closes_pool = h
  Others-stopped h (stops_queue e) = refl
  Others-stopped h (changes folder) = h

  pub Runs-stopped :
      {s : Daemon} {n : ℕ} {t : Daemon}
      → s.crew.pool.queue.stopped ≡ true
      → Runs sum256 sorter after_action s n t
      → t.crew.pool.queue.stopped ≡ true
  Runs-stopped h here = h
  Runs-stopped h (works r w) = Works-stopped w ∙ Runs-stopped h r
  Runs-stopped h (others r o) = Others-stopped (Runs-stopped h r) o
