-- ===== src/Sender/Daemon/Stopping.antt =====
-- Stop of ClientPool in internal/sender/client.go: the wait for the workers ends, and then no file is
-- being sent.
use go_xport.Common.{
  ℕ, zero, suc, ◌<◌, ◌≤◌, ◌≡◌, ◌⊎◌, inl, inr, refl, sym, ap, Bool, true, false, List, [], ◌∷◌, ◌++◌,
  none, Bytes, lt_of_ne, ◌==◌, ==_iff, ==_ne_iff, Bool-cases, arith,
}
use go_xport.Monitor.Tracker.{Tracker}
use go_xport.Sender.Crew.Alone.{Reaches-IsCrew}
use go_xport.Sender.Daemon.{
  Place, polling, popping, sending, ended, Daemon, Works, leaves, takes, finds_end, settles, Runs,
  steps_by, new_daemon,
}
use go_xport.Sender.Daemon.Manned.{carried}
use go_xport.Sender.Daemon.Stopped.{Runs-stopped}
use go_xport.Sender.Folder.{Folder}
use go_xport.Sender.Items.{FileItem, Sorter, In}
use go_xport.Sender.Queue.{Queue, Popped, pop}
use go_xport.Sender.Queue.Order.{Pops, pop-Pops}
use go_xport.Sender.Worker.{AfterAction, Turn}
use go_xport.Wire.Io.{IoError}
use go_xport.Sender.Daemon.Running.{IsRun, Runs-IsRun, new_daemon-IsRun}
use go_xport.Sender.Daemon.Ranking.{rank_le, Runs-rank}

-- A turn in which no dial succeeds.
abbrev offline : Turn
offline = record {
  halted = false;
  halted_later = false;
  dials = false;
  opened = none;
  link = record {
    out = record { written = []; room = 0; fault = IoError.broken };
    back = record { input = []; fault = IoError.eof };
  };
  faults = record { make_dir = false; rename_file = false; remove_file = false; read_dir = false };
  now = 0;
}

-- The workers have returned, and no file is being sent.
pub record HasStopped (s : Daemon) : Type 0 where
  pub returned : (i : ℕ) → i < s.parallel → s.workers i ≡ ended
  pub idle : s.crew.busy ≡ []

In-split :
    (x : FileItem) (items : List FileItem)
    → In x items
    → (front : List FileItem) × (back : List FileItem) × (items ≡ front ++ (x ∷ back))
In-split x [] i = elim i [ ]
In-split x (y ∷ items) (inl e) = ([], items, ap (λ (z : FileItem). z ∷ items) e)
In-split x (y ∷ items) (inr i) =
    let (front, back, e) = In-split x items i in (y ∷ front, back, ap (◌∷◌ y) e)

nobody_busy : (items : List FileItem) → ((item : FileItem) → In item items → ⊥) → items ≡ []
nobody_busy [] h = refl
nobody_busy (x ∷ items) h = absurd (h x (inl refl))

module _ (sum256 : Bytes → Bytes) (sorter : Sorter) (after_action : AfterAction) where
  -- A worker that has not returned can take its next step.
  worker_goes_on :
      (s : Daemon) (i : ℕ) (place : Place)
      → i < s.parallel
      → s.workers i ≡ place
      → s.pool_closed ≡ true
      → s.crew.pool.queue.stopped ≡ true
      → IsRun sum256 sorter after_action s
      → (place ≡ ended) ⊎ ((t : Daemon) × Works sum256 sorter after_action s t)
  worker_goes_on s i ended lt e stop stopped h = inl refl
  worker_goes_on s i (polling connected) lt e stop stopped h = inr (_, leaves i lt e stop)
  worker_goes_on s i (sending connected item) lt e stop stopped h =
      let (front, back, split) = In-split item s.crew.busy (h.manned.has i item (ap carried e)) in
      inr (_, settles i offline front back lt e split (λ halts. stop))
  worker_goes_on s i (popping connected) lt e stop stopped h =
      by_pop (pop s.crew.pool.queue) refl
        (pop-Pops s.crew.pool.queue (Reaches-IsCrew sum256 sorter after_action s.crew h.crew).queue)
    where
      by_pop :
          (o : Popped × Queue)
          → pop s.crew.pool.queue ≡ o
          → Pops s.crew.pool.queue o
          → (popping connected ≡ ended) ⊎ ((t : Daemon) × Works sum256 sorter after_action s t)
      by_pop (_, _) popped (Pops.waits empty runs) = absurd (cc)
      by_pop (_, _) popped (Pops.ends empty was) = inr (_, finds_end i lt e popped)
      by_pop (_, _) popped (Pops.gives oldest_first oldest away waiting) =
          inr (_, takes i lt e popped)

  all_or_one :
      (s : Daemon) (n : ℕ)
      → n ≤ s.parallel
      → s.pool_closed ≡ true
      → s.crew.pool.queue.stopped ≡ true
      → IsRun sum256 sorter after_action s
      → ((i : ℕ) → i < n → s.workers i ≡ ended)
        ⊎ ((t : Daemon) × Works sum256 sorter after_action s t)
  all_or_one s zero le stop stopped h = inl (λ i lt. absurd (omega (arith, lt)))
  all_or_one s (suc n) le stop stopped h =
      elim (all_or_one s n (omega (arith, le)) stop stopped h) [
        | inr next ↦ inr next
        | inl all ↦
            elim (worker_goes_on s n (s.workers n) (omega (arith, le)) refl stop stopped h) [
              | inr next ↦ inr next
              | inl last ↦ inl (λ i lt. elim (Bool-cases (i == n)) [
                | inl e ↦ rw ((==_iff i n).0 e) last
                | inr ne ↦ all i (lt_of_ne lt (λ e. (==_ne_iff i n).0 ne (sym e)))
              ])
            ]
      ]

  -- From any state that the goroutines lead to, once Stop has closed the channel and stopped the queue:
  -- each worker takes at most three more steps; and as long as they have not all returned, one of
  -- them can take its next step, so that they do not wait for ever. When they have
  -- all returned, no file is being sent.
  pub Runs-HasStopped :
      (parallel max_attempts : ℕ) (tracker : Tracker) (unreadable : Bool) (folder : Folder)
      (m n : ℕ) (s t : Daemon)
      → Runs sum256 sorter after_action
          (new_daemon parallel max_attempts tracker unreadable folder)
          m
          s
      → s.pool_closed ≡ true
      → s.crew.pool.queue.stopped ≡ true
      → (run : Runs sum256 sorter after_action s n t)
      → ((i : ℕ) → steps_by sum256 sorter after_action i run ≤ 3)
        × (HasStopped t ⊎ ((u : Daemon) × Works sum256 sorter after_action t u))
  Runs-HasStopped parallel max_attempts tracker unreadable folder m n s t past stop stopped run =
      let (bound, closed_then) = Runs-rank sum256 sorter after_action stop run in
      let first =
        new_daemon-IsRun sum256 sorter after_action parallel max_attempts tracker unreadable
          folder in
      let h =
        Runs-IsRun sum256 sorter after_action (Runs-IsRun sum256 sorter after_action first past)
          run in
      let stopped_then = Runs-stopped sum256 sorter after_action stopped run in
      (
        λ i. omega (arith, bound i, rank_le (s.workers i)),
        elim (all_or_one t t.parallel (omega arith) closed_then stopped_then h) [
          | inr next ↦ inr next
          | inl all ↦ inl (record {
            returned = all;
            idle = nobody_busy t.crew.busy (λ item busy.
                let (i, lt, there) = h.manned.held item busy in
                let gone = ap carried (all i lt) in absurd (cc));
          })
        ],
      )
