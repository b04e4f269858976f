-- ===== src/Receiver/Commit.antt =====
-- CommitBarrier of internal/receiver/committer.go.
pub mod Branches
pub mod Durability
use go_xport.Common.{Bool, not, ◌||◌, Bytes, if◌then◌else◌}
use go_xport.Monitor.Tracker.{Tracker}
use go_xport.Receiver.Disk
use go_xport.Receiver.Disk.{Disk, FilePath, Faults, target_path, try_remove, rename, sync_top}
use go_xport.Receiver.Stager.{is_some}
use go_xport.Wire.Io.{
  ◌>>=◌, ◌>>◌, Exec, Result, ok, err, io, commit, ack_failed, CommitStep, sync_file, close_file,
  rename_file, open_dir, sync_dir, Source, Sink,
}
use go_xport.Wire.Response.{write_ack}

-- A connection that is being served: the disk, both directions of the stream, and the counters.
pub record Session : Type 0 where
  pub disk : Disk
  pub src : Source
  pub dst : Sink
  pub tracker : Tracker

-- A call that fails if `failed`; `undo` is the cleanup before the error return.
abbrev pub attempt : Bool → CommitStep → (Disk → Disk) → (Disk → Disk) → Exec Session (Unit {0})
attempt failed step undo act s =
    if failed
    then (err (commit step), record s { disk = undo s.disk })
    else (ok tt, record s { disk = act s.disk })

-- An error of the ACK's write is wrapped.
abbrev pub ack_error : Result (Unit {0}) → Result (Unit {0})
ack_error (err (io e)) = err (ack_failed e)
ack_error r = r

abbrev pub send_ack : Exec Session (Unit {0})
send_ack s = let (r, dst) = write_ack s.dst in (ack_error r, record s { dst = dst })

-- `os.Rename` fails too where there is no staged file.
abbrev pub rename_staged : Faults → FilePath → Bytes → Exec Session (Unit {0})
rename_staged f staged filename s =
    attempt (f.rename_file || not (is_some (s.disk.live staged))) rename_file (try_remove f staged)
      (rename staged (target_path filename)) s

-- 5. the ACK, behind the directory's sync
unfoldable pub sync_and_ack : Faults → Exec Session (Unit {0})
sync_and_ack f = do attempt f.sync_dir sync_dir (λ d. d) sync_top; send_ack

-- 4. the directory is opened and synced
unfoldable pub persist : Faults → Exec Session (Unit {0})
persist f = do attempt f.open_dir open_dir (λ d. d) (λ d. d); sync_and_ack f

-- 2. and 3. the staged file is closed, and gets its final name
unfoldable pub close_and_rename : Faults → FilePath → Bytes → Exec Session (Unit {0})
close_and_rename f staged filename = do
  attempt f.close_file close_file (try_remove f staged) (λ d. d)
  rename_staged f staged filename

-- 1. the staged file is synced
unfoldable pub move_in : Faults → FilePath → Bytes → Exec Session (Unit {0})
move_in f staged filename = do
  attempt f.sync_file sync_file (try_remove f staged) (Disk.sync_file staged)
  close_and_rename f staged filename

unfoldable pub commit_barrier : Faults → FilePath → Bytes → Exec Session (Unit {0})
commit_barrier f staged filename = do move_in f staged filename; persist f
