-- ===== src/Sender/Daemon.antt =====
-- The goroutines of internal/sender/client.go and scanner.go: Start and Stop of ClientPool and of
-- Scanner, scanLoop, and workerLoop turn by turn, in any order. Beside the Crew that they share, each
-- worker has a place in its loop, with whether it has a connection.
pub mod Manned
pub mod Running
pub mod Ranking
pub mod Stopped
pub mod Stopping
use go_xport.Common.{
  ◌==◌, if◌then◌else◌, ℕ, suc, ◌<◌, ◌≡◌, ◌≢◌, Bool, true, false, List, ◌∷◌, ◌++◌, Bytes, set,
}
use go_xport.Monitor.Tracker.{Tracker}
use go_xport.Sender.Crew.{Crew, new_crew, is_held, Sighted, scanned}
use go_xport.Sender.Folder.{Folder}
use go_xport.Sender.Items.{FileItem, Sorter}
use go_xport.Sender.Queue.{Queue, taken, closed, pop, stop}
use go_xport.Sender.Scanner.{Entry}
use go_xport.Sender.Scanner.Stability.{OnceEach}
use go_xport.Sender.Worker.{AfterAction, Turn, goes_on, waits, returns, After, work_item}
use go_xport.Sender.Worker

-- At the select at the top of the loop, on the way to Pop, with an item, or returned.
pub data Place : Type 0 where
  polling popping : Bool → Place
  sending : Bool → FileItem → Place
  ended : Place

-- The first scan, the select, or returned.
pub data ScanPlace : Type 0 where
  starting ticking scan_ended : ScanPlace

-- `pool_closed` and `scan_closed` say whether the two `stopCh` are closed.
pub record Daemon : Type 0 where
  pub crew : Crew
  pub parallel : ℕ
  pub workers : ℕ → Place
  pub scanner : ScanPlace
  pub pool_closed : Bool
  pub scan_closed : Bool

-- Start of the scanner and of the pool, behind their constructors.
unfoldable pub started : ℕ → Crew → Daemon
started parallel crew = record {
  crew = crew;
  parallel = parallel;
  workers = λ i. polling false;
  scanner = starting;
  pool_closed = false;
  scan_closed = false;
}

-- `close(p.stopCh)` and `p.queue.Stop()`, in front of the wait for the workers
unfoldable pub close_pool : Daemon → Daemon
close_pool s = record s { pool_closed = true }

unfoldable pub stop_queue : Daemon → Daemon
stop_queue s = record s {
  crew = record s.crew { pool = record s.crew.pool { queue = stop s.crew.pool.queue } };
}

-- Stop of the scanner.
unfoldable pub close_scanner : Daemon → Daemon
close_scanner s = record s { scan_closed = true }

-- Where a worker stands behind its turn.
abbrev pub place_after : Worker.Step → Bool → Place
place_after goes_on connected = polling connected
place_after waits connected = popping connected
place_after returns connected = ended

abbrev pub put_place : ℕ → Place → Daemon → Daemon
put_place i place s = record s { workers = set s.workers i place }

abbrev pub took : ℕ → Bool → FileItem → Queue → Daemon → Daemon
took i connected item next s = record s {
  crew = record { pool = record s.crew.pool { queue = next }; busy = item ∷ s.crew.busy };
  workers = set s.workers i (sending connected item);
}

-- A worker puts the shared state back, with one item less in work.
abbrev pub settled : ℕ → After → List FileItem → Daemon → Daemon
settled i a busy s = record s {
  crew = record { pool = a.pool; busy = busy };
  workers = set s.workers i (place_after a.step a.connected);
}

-- The goroutines of a new pool and a new scanner.
abbrev pub new_daemon : ℕ → ℕ → Tracker → Bool → Folder → Daemon
new_daemon parallel max_attempts tracker unreadable folder =
    started parallel (new_crew max_attempts tracker unreadable folder)

module _ (sum256 : Bytes → Bytes) (sorter : Sorter) (after_action : AfterAction) where
  -- A step of worker `i`. It can only return in the wait after a failed dial if the channel is closed.
  pub data Works (s : Daemon) : Daemon → Type 0 where
    polls :
        (i : ℕ) {connected : Bool}
        → i < s.parallel
        → s.workers i ≡ polling connected
        → s.pool_closed ≡ false
        → Works s (put_place i (popping connected) s)
    leaves :
        (i : ℕ) {connected : Bool}
        → i < s.parallel
        → s.workers i ≡ polling connected
        → s.pool_closed ≡ true
        → Works s (put_place i ended s)
    takes :
        (i : ℕ) {connected : Bool} {item : FileItem} {next : Queue}
        → i < s.parallel
        → s.workers i ≡ popping connected
        → pop s.crew.pool.queue ≡ (taken item, next)
        → Works s (took i connected item next s)
    finds_end :
        (i : ℕ) {connected : Bool} {next : Queue}
        → i < s.parallel
        → s.workers i ≡ popping connected
        → pop s.crew.pool.queue ≡ (closed, next)
        → Works s (put_place i ended s)
    settles :
        (i : ℕ) {connected : Bool} (turn : Turn) (front : List FileItem) {item : FileItem}
        (back : List FileItem)
        → i < s.parallel
        → s.workers i ≡ sending connected item
        → s.crew.busy ≡ front ++ (item ∷ back)
        → (turn.halted_later ≡ true → s.pool_closed ≡ true)
        → Works s (
            settled i
              (work_item sum256 sorter after_action turn connected item s.crew.pool)
              (front ++ back)
              s)

  -- The worker whose step it is.
  abbrev pub worker_of : {s t : Daemon} → Works s t → ℕ
  worker_of (polls i lt e runs) = i
  worker_of (leaves i lt e stopped) = i
  worker_of (takes i lt e popped) = i
  worker_of (finds_end i lt e popped) = i
  worker_of (settles i turn front back lt e busy halts) = i

  -- A step of scanLoop, of Stop, or of others in the watched directory. The select of scanLoop may take
  -- another tick when its channel is closed already.
  pub data Others (s : Daemon) : Daemon → Type 0 where
    scans :
        (entries : List Entry)
        → s.scanner ≢ scan_ended
        → OnceEach entries
        → ((name : Bytes) → is_held s.crew name ≡ true → Sighted entries name)
        → Others s (record s { crew = scanned sorter entries s.crew; scanner = ticking })
    reads_nothing : s.scanner ≢ scan_ended → Others s (record s { scanner = ticking })
    ends_scans :
        s.scanner ≡ ticking → s.scan_closed ≡ true → Others s (record s { scanner = scan_ended })
    closes_scanner : Others s (close_scanner s)
    closes_pool : Others s (close_pool s)
    stops_queue : s.pool_closed ≡ true → Others s (stop_queue s)
    changes :
        (folder : Folder)
        → Others s
            (record s { crew = record s.crew { pool = record s.crew.pool { folder = folder } } })

  -- A run, with the number of the workers' steps in it.
  pub data Runs (s : Daemon) : ℕ → Daemon → Type 0 where
    here : Runs s 0 s
    works : {n : ℕ} {t u : Daemon} → Runs s n t → Works t u → Runs s (suc n) u
    others : {n : ℕ} {t u : Daemon} → Runs s n t → Others t u → Runs s n u

  -- How many of the steps are worker `i`'s.
  abbrev pub steps_by : ℕ → {s t : Daemon} {n : ℕ} → Runs s n t → ℕ
  steps_by i here = 0
  steps_by i (works r w) =
      let before = steps_by i r in if i == worker_of w then suc before else before
  steps_by i (others r o) = steps_by i r
