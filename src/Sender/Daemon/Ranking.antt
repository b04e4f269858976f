-- ===== src/Sender/Daemon/Ranking.antt =====
-- How many steps the workers of internal/sender/client.go can take once `stopCh` is closed.
use go_xport.Common.{
  ◌==◌, ==_iff, ap, ℕ, ◌+◌, ◌<◌, ◌≤◌, ◌≡◌, inl, inr, refl, Bool, true, ◌||◌, Bytes, set, Bool-cases,
  arith,
}
use go_xport.Sender.Crew.{scanned}
use go_xport.Sender.Daemon.{
  Place, polling, popping, sending, ended, Daemon, close_pool, stop_queue, close_scanner,
  place_after, Works, polls, leaves, takes, finds_end, settles, Others, scans, reads_nothing,
  ends_scans, closes_scanner, closes_pool, stops_queue, changes, Runs, here, works, others,
  worker_of, steps_by,
}
use go_xport.Sender.Items.{FileItem, Sorter}
use go_xport.Sender.Worker.{AfterAction, Pool, Turn, not_connected, settle, work_item}
use go_xport.Sender.Transfer.{transfer_file}
use go_xport.Wire.Io.{Result, ok, err}

-- How many steps a worker can still take once `stopCh` is closed.
abbrev pub rank : Place → ℕ
rank (popping connected) = 3
rank (sending connected item) = 2
rank (polling connected) = 1
rank ended = 0

pub rank_le : (place : Place) → rank place ≤ 3
rank_le (popping connected) = omega arith
rank_le (sending connected item) = omega arith
rank_le (polling connected) = omega arith
rank_le ended = omega arith

module _ (sum256 : Bytes → Bytes) (sorter : Sorter) (after_action : AfterAction) where
  settle-rank :
      (turn : Turn) (item : FileItem) (p : Pool) (r : Result (Unit {0}))
      → let a = settle sum256 sorter after_action turn item p r in
        rank (place_after a.step a.connected) ≤ 1
  unfolding settle
  settle-rank turn item p (ok u) = omega arith
  settle-rank turn item p (err why) = omega arith

  -- A turn does not end in Pop.
  work_item-rank :
      (turn : Turn) (connected : Bool) (item : FileItem) (p : Pool)
      → let a = work_item sum256 sorter after_action turn connected item p in
        rank (place_after a.step a.connected) ≤ 1
  unfolding work_item not_connected
  work_item-rank turn connected item p = elim (Bool-cases (connected || turn.dials)) [
    | inl e ↦
        rw e (settle-rank turn item p (transfer_file sum256 turn.opened item.filename turn.link).0)
    | inr e ↦ elim (Bool-cases turn.halted_later) [
      | inl halts ↦ simp (e, halts) (omega arith)
      | inr goes ↦ simp (e, goes) (omega arith)
    ]
  ]

  -- A worker's step lowers its own rank, and leaves those of the others.
  Works-rank :
      {s t : Daemon}
      → s.pool_closed ≡ true
      → (w : Works sum256 sorter after_action s t)
      → (place : Place) × (t.workers ≡ set s.workers (worker_of sum256 sorter after_action w) place)
        × (rank place < rank (s.workers (worker_of sum256 sorter after_action w)))
        × (t.pool_closed ≡ true)
  Works-rank {s} stop (polls i lt e runs) = absurd (cc)
  Works-rank {s} stop (leaves i lt e stopped) = (ended, refl, rw e (omega arith), stop)
  Works-rank {s} stop (takes i {connected} {item} {next} lt e popped) =
      (sending connected item, refl, rw e (omega arith), stop)
  Works-rank {s} stop (finds_end i lt e popped) = (ended, refl, rw e (omega arith), stop)
  Works-rank {s} stop (settles i {connected} turn front {item} back lt e busy halts) =
      let low = work_item-rank turn connected item s.crew.pool in
      (_, refl, rw e (omega (arith, low)), stop)

  Others-rank :
      {s t : Daemon}
      → s.pool_closed ≡ true
      → Others sum256 sorter after_action s t
      → (t.workers ≡ s.workers) × (t.pool_closed ≡ true)
  unfolding close_pool stop_queue close_scanner scanned
  Others-rank stop (scans entries runs once seen) = (refl, stop)
  Others-rank stop (reads_nothing runs) = (refl, stop)
  Others-rank stop (ends_scans e stopped) = (refl, stop)
  Others-rank stop closes_scanner = (refl, stop)
  Others-rank stop closes_pool = (refl, refl)
  Others-rank stop (stops_queue e) = (refl, stop)
  Others-rank stop (changes folder) = (refl, stop)

  -- A worker's steps come out of its rank.
  pub Runs-rank :
      {s : Daemon} {n : ℕ} {t : Daemon}
      → s.pool_closed ≡ true
      → (r : Runs sum256 sorter after_action s n t)
      → ((i : ℕ)
          → steps_by sum256 sorter after_action i r + rank (t.workers i) ≤ rank (s.workers i))
        × (t.pool_closed ≡ true)
  Runs-rank stop here = (λ i. omega arith, stop)
  Runs-rank {s} {n} {t} stop (works {t = mid} r w) =
      let (before, closed_then) = Runs-rank stop r in
      let (place, moved, less, closed_now) = Works-rank closed_then w in
      let j = worker_of sum256 sorter after_action w in
      (
        λ i. elim (Bool-cases (i == j)) [
          | inl e ↦
              let here : rank (t.workers i) ≡ rank place = rw (moved, e) refl in
              let same : rank (mid.workers i) ≡ rank (mid.workers j) =
                ap (λ k. rank (mid.workers k)) ((==_iff i j).0 e) in
              rw e (omega (arith, before i, less, here, same))
          | inr e ↦
              let here : rank (t.workers i) ≡ rank (mid.workers i) = rw (moved, e) refl in
              rw e (omega (arith, before i, here))
        ],
        closed_now,
      )
  Runs-rank stop (others r o) =
      let (before, closed_then) = Runs-rank stop r in
      let (kept, closed_now) = Others-rank closed_then o in (λ i. rw kept (before i), closed_now)
