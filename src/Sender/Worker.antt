-- ===== src/Sender/Worker.antt =====
-- workerLoop and postCommit of internal/sender/client.go. The queue, the
-- scanner's states, the tracker and the watched directory are shared by the workers; `scanner` and
-- `tracker` are not nil, as cmd/xport passes both.
pub mod Invariant
pub mod Files
pub mod Durable
pub mod Draining
use go_xport.Common.{ℕ, Bool, true, false, ◌||◌, List, [], ◌∷◌, Option, Bytes, if◌then◌else◌}
use go_xport.Monitor.Tracker
use go_xport.Monitor.Tracker.{Tracker, record_error}
use go_xport.Sender.Folder.{Folder, FolderFaults, rename, remove, sent_path}
use go_xport.Sender.Items.{FileItem, Sorter}
use go_xport.Sender.Queue.{
  Queue, Popped, blocked, closed, taken, pop, record_success, record_failure,
}
use go_xport.Sender.Scanner.{States, mark_completed}
use go_xport.Sender.Transfer.{Link, OpenFile, transfer_file}
use go_xport.Wire.Io.{Result, ok, err}

-- `afterAction`: "delete", or "archive" and any other text.
pub data AfterAction : Type 0 where
  delete archive : AfterAction

pub record Pool : Type 0 where
  pub queue : Queue
  pub states : States
  pub folder : Folder

-- What the environment decides in one turn: whether the pool is being stopped, at its start and in
-- the wait after a failed dial; whether a dial succeeds; the open file and the connection's
-- streams; the failing calls; the time.
pub record Turn : Type 0 where
  pub halted : Bool
  pub halted_later : Bool
  pub dials : Bool
  pub opened : Option OpenFile
  pub link : Link
  pub faults : FolderFaults
  pub now : ℕ

-- The worker goes on, blocks in Pop, or returns.
pub data Step : Type 0 where
  goes_on waits returns : Step

-- What a turn leaves: the step, whether there is a connection, and the shared state.
pub record After : Type 0 where
  pub step : Step
  pub connected : Bool
  pub pool : Pool

-- The Boolean is whether postCommit returns nil.
unfoldable pub post_commit : AfterAction → FolderFaults → FileItem → Folder → Bool × Folder
post_commit delete f item folder = remove f.remove_file item.path folder
post_commit archive f item folder =
    if f.make_dir
    then (false, folder)
    else rename f.rename_file item.path (sent_path item.filename) folder

abbrev pub with_tracker : (Tracker → Tracker) → Queue → Queue
with_tracker change q = record q { tracker = change q.tracker }

-- The rest of the loop, or its end.
abbrev pub go_on : Step → After → (Bool → Pool → After) → After
go_on goes_on a rest = rest a.connected a.pool
go_on waits a rest = a
go_on returns a rest = a

module _ (sum256 : Bytes → Bytes) (sorter : Sorter) (after_action : AfterAction) where
  -- RecordError and RecordFailure; the Boolean is whether the file was quarantined.
  unfoldable pub fail_item : Turn → FileItem → Pool → Bool × Pool
  fail_item turn item p =
      let (quarantined, (q, folder)) =
        record_failure sorter turn.faults item
          (with_tracker (record_error turn.now) p.queue, p.folder) in
      (quarantined, record p { queue = q; folder = folder })

  unfoldable pub not_connected : Turn → FileItem → Pool → After
  not_connected turn item p = record {
    step = if turn.halted_later then returns else goes_on;
    connected = false;
    pool = (fail_item turn item p).1;
  }

  -- What follows transferFile. A failed postCommit is only logged.
  unfoldable pub settle : Turn → FileItem → Pool → Result (Unit {0}) → After
  settle turn item p (ok _) = record {
    step = goes_on;
    connected = true;
    pool = record {
      queue =
          with_tracker (Tracker.record_success turn.now item.size)
            (record_success item.filename p.queue);
      states = mark_completed item.filename p.states;
      folder = (post_commit after_action turn.faults item p.folder).1;
    };
  }
  settle turn item p (err e) =
      let (quarantined, failed) = fail_item turn item p in
      record {
        step = goes_on;
        connected = false;
        pool = record failed {
          states =
              if quarantined then mark_completed item.filename failed.states else failed.states;
        };
      }

  unfoldable pub work_item : Turn → Bool → FileItem → Pool → After
  work_item turn connected item p =
      if connected || turn.dials
      then settle turn item p (transfer_file sum256 turn.opened item.filename turn.link).0
      else not_connected turn item p

  unfoldable pub after_pop : Turn → Bool → Pool → Popped × Queue → After
  after_pop turn connected p (blocked, q) = record { step = waits; connected = connected; pool = p }
  after_pop turn connected p (closed, q) = record { step = returns; connected = false; pool = p }
  after_pop turn connected p (taken item, q) =
      work_item turn connected item (record p { queue = q })

  -- One turn of the loop.
  unfoldable pub work : Turn → Bool → Pool → After
  work turn connected p =
      if turn.halted
      then record { step = returns; connected = false; pool = p }
      else after_pop turn connected p (pop p.queue)

  -- The loop, for so many turns of this worker; its connection is closed when it returns.
  unfoldable pub worker_loop : List Turn → Bool → Pool → After
  worker_loop [] connected p = record { step = goes_on; connected = connected; pool = p }
  worker_loop (turn ∷ turns) connected p =
      let a = work turn connected p in go_on a.step a (worker_loop turns)
