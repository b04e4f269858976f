-- ===== src/Sender/Crew.antt =====
-- The workers and the scanner of internal/sender/client.go and scanner.go at work together: each takes
-- the queue's or the scanner's mutex for its step, in any order. What a worker does after
-- transferFile, up to the end of its turn, counts as one step.
pub mod Settling
pub mod Scanning
pub mod Alone
use go_xport.Common.{
  ℕ, ◌≡◌, Bool, true, false, ◌||◌, List, [], ◌∷◌, ◌++◌, Option, none, some, Bytes,
}
use go_xport.Monitor.Tracker.{Tracker}
use go_xport.Sender.Folder.{Folder}
use go_xport.Sender.Items.{FileItem, Sorter, is_listed}
use go_xport.Sender.Queue.{Queue, taken, pop, new_queue, stop}
use go_xport.Sender.Scanner.{FileScanState, Entry, scan_once}
use go_xport.Sender.Scanner.Stability.{Shows, OnceEach}
use go_xport.Sender.Worker.{AfterAction, Pool, Turn, work_item}

-- What the workers share, and the items that some worker has popped and is not done with.
pub record Crew : Type 0 where
  pub pool : Pool
  pub busy : List FileItem

-- The file waits in the queue, or a worker has it.
abbrev pub is_held : Crew → Bytes → Bool
is_held c name = c.pool.queue.in_queue name || is_listed name c.busy

-- The scanner knows the file and will not queue it again.
abbrev pub is_marked : Option FileScanState → Bool
is_marked none = false
is_marked (some state) = state.is_queued

-- The listing shows the file.
abbrev pub Sighted : List Entry → Bytes → Type 0
Sighted entries name = (size : ℕ) × (mod_time : ℕ) × Shows entries name size mod_time

unfoldable pub scanned : Sorter → List Entry → Crew → Crew
scanned sorter entries c =
    let (states, queue) = scan_once sorter (some entries) (c.pool.states, c.pool.queue) in
    record c { pool = record c.pool { states = states; queue = queue } }

-- ClientPool and Scanner as cmd/xport makes them: no file is known, and no worker has one.
abbrev pub new_crew : ℕ → Tracker → Bool → Folder → Crew
new_crew max_attempts tracker unreadable folder = record {
  pool = record {
    queue = new_queue max_attempts tracker unreadable folder;
    states = λ name. none;
    folder = folder;
  };
  busy = [];
}

module _ (sum256 : Bytes → Bytes) (sorter : Sorter) (after_action : AfterAction) where
  -- One step. A scan reads a listing with no name twice, which shows every file that waits or that
  -- a worker has: nothing else takes a file out of the watched directory for a time. `changes` is
  -- whatever happens to the directory otherwise.
  pub data Move (c : Crew) : Crew → Type 0 where
    scans :
        (entries : List Entry)
        → OnceEach entries
        → ((name : Bytes) → is_held c name ≡ true → Sighted entries name)
        → Move c (scanned sorter entries c)
    takes :
        {item : FileItem} {next : Queue}
        → pop c.pool.queue ≡ (taken item, next)
        → Move c (record { pool = record c.pool { queue = next }; busy = item ∷ c.busy })
    settles :
        (turn : Turn) (connected : Bool) (before : List FileItem) (item : FileItem)
        (after : List FileItem)
        → c.busy ≡ before ++ (item ∷ after)
        → Move c (record {
          pool = (work_item sum256 sorter after_action turn connected item c.pool).pool;
          busy = before ++ after;
        })
    stops : Move c (record c { pool = record c.pool { queue = stop c.pool.queue } })
    changes : (folder : Folder) → Move c (record c { pool = record c.pool { folder = folder } })

  pub data Reaches : Crew → Type 0 where
    made :
        (max_attempts : ℕ) (tracker : Tracker) (unreadable : Bool) (folder : Folder)
        → Reaches (new_crew max_attempts tracker unreadable folder)
    later : {c d : Crew} → Reaches c → Move c d → Reaches d
