-- ===== src/Receiver/Commit/Durability.antt =====
-- What CommitBarrier of internal/receiver/committer.go promises: an ACK means that the file is
-- durable, and without one nothing but the staged file and the target has changed.
use go_xport.Common.{◌≤◌, ◌≡◌, ◌≢◌, ◌⊎◌, sym, ap, subst, true, false, [], ◌∷◌, ◌++◌, Bytes, some}
use go_xport.Receiver.Commit.Branches.{
  renamed, kept, Unkept, persist-Outcome, move_in-Outcome, placed, placed_live, committed,
  Unanswered, commit_barrier-Outcome,
}
use go_xport.Wire.Outcome.{Outcome, Outcome-ok, Outcome-err}
use go_xport.Receiver.Disk.{Disk, File, FilePath, Faults, target_path, same_path_refl, flush}
use go_xport.Receiver.Commit.{
  Session, sync_and_ack, persist, move_in, close_and_rename, commit_barrier,
}
use go_xport.Wire.Io.{Result, ok, err, TransferError, io, write_fits}
use go_xport.Wire.Response.{write_ack, ack_byte}

-- The file at `name` is there now and after a crash, with this content.
pub record IsDurable (d : Disk) (name : Bytes) (content : Bytes) : Type 0 where
  pub now : d.live (target_path name) ≡ some (record { content = content; flushed = true })
  pub after_crash :
      d.stable (target_path name) ≡ some (record { content = content; flushed = true })

pub committed-IsDurable :
    (staged : FilePath) (filename : Bytes) (s : Session) (file : File)
    → s.disk.live staged ≡ some file
    → IsDurable (committed staged filename s).disk filename file.content
committed-IsDurable staged filename s file e =
    let here : (placed staged filename s.disk).live (target_path filename)
        ≡ some (record { content = file.content; flushed = true }) =
      rw (same_path_refl (target_path filename), same_path_refl staged, e) in
    record { now = here; after_crash = here }

-- If CommitBarrier returns nil for a staged file that exists, the one ACK byte has been sent, and
-- the staged content is at the target, now and after a crash.
pub commit_barrier-IsDurable :
    (f : Faults) (staged : FilePath) (filename : Bytes) (s t : Session) (file : File)
    → s.disk.live staged ≡ some file
    → commit_barrier f staged filename s ≡ (ok tt, t)
    → IsDurable t.disk filename file.content × (t.dst.written ≡ s.dst.written ++ (ack_byte ∷ []))
commit_barrier-IsDurable f staged filename s t file e h =
    let done =
      Outcome-ok (λ t. t ≡ committed staged filename s) (Unanswered staged filename s)
        (commit_barrier f staged filename s) h (commit_barrier-Outcome f staged filename s) in
    (
      subst (λ (t : Session). IsDurable t.disk filename file.content) (sym done)
          (committed-IsDurable staged filename s file e),
      ap (λ (t : Session). t.dst.written) done,
    )

-- If CommitBarrier returns an error, nothing has been sent or counted, and no file but the staged
-- one has changed, except that the target may hold the whole staged content; what a crash would
-- leave of a file is as before, or as the file is now.
pub commit_barrier-Unanswered :
    (f : Faults) (staged : FilePath) (filename : Bytes) (s t : Session) (e : TransferError)
    → commit_barrier f staged filename s ≡ (err e, t)
    → Unanswered staged filename s t
commit_barrier-Unanswered f staged filename s t e h =
    Outcome-err (λ t. t ≡ committed staged filename s) (Unanswered staged filename s)
      (commit_barrier f staged filename s) h (commit_barrier-Outcome f staged filename s)

-- The same up to the rename.
pub move_in-others :
    (f : Faults) (staged : FilePath) (filename : Bytes) (s : Session) (q : FilePath)
    → q ≢ staged
    → ((move_in f staged filename s).1.disk.live q ≡ s.disk.live q)
      ⊎ ((q ≡ target_path filename)
          × ((move_in f staged filename s).1.disk.live q ≡ flush (s.disk.live staged)))
move_in-others f staged filename s q ne =
    split (move_in f staged filename s) (move_in-Outcome f staged filename s)
  where
    split :
        (o : Result (Unit {0}) × Session)
        → Outcome (λ t. t ≡ renamed f staged filename s) (Unanswered staged filename s) o
        → (o.1.disk.live q ≡ s.disk.live q)
          ⊎ ((q ≡ target_path filename) × (o.1.disk.live q ≡ flush (s.disk.live staged)))
    split (ok u, t) done =
        subst
          (λ (t : Session).
            (t.disk.live q ≡ s.disk.live q)
            ⊎ ((q ≡ target_path filename) × (t.disk.live q ≡ flush (s.disk.live staged))))
          (sym done) (placed_live staged filename s q ne)
    split (err e, t) h = h.others q ne

-- Behind the rename no file changes.
pub persist-live : (f : Faults) (s : Session) → (persist f s).1.disk.live ≡ s.disk.live
persist-live f s = split (persist f s) (persist-Outcome f s)
  where
    split :
        (o : Result (Unit {0}) × Session)
        → Outcome (λ t. t ≡ kept s) (Unkept s) o
        → o.1.disk.live ≡ s.disk.live
    split (ok u, t) done = ap (λ (t : Session). t.disk.live) done
    split (err e, t) h = h.live

-- No call of the barrier fails.
pub record IsHealthy (f : Faults) : Type 0 where
  pub make_dir : f.make_dir ≡ false
  pub random_bytes : f.random_bytes ≡ false
  pub open_file : f.open_file ≡ false
  pub sync_file : f.sync_file ≡ false
  pub close_file : f.close_file ≡ false
  pub rename_file : f.rename_file ≡ false
  pub open_dir : f.open_dir ≡ false
  pub sync_dir : f.sync_dir ≡ false

pub commit_barrier_lem :
    (f : Faults) (staged : FilePath) (filename : Bytes) (s : Session) (file : File)
    → IsHealthy f
    → s.disk.live staged ≡ some file
    → 1 ≤ s.dst.room
    → commit_barrier f staged filename s ≡ (ok tt, committed staged filename s)
unfolding commit_barrier move_in close_and_rename persist sync_and_ack write_ack
commit_barrier_lem f staged filename s file h e room = rw (
  h.sync_file,
  h.close_file,
  h.rename_file,
  same_path_refl staged,
  e,
  h.open_dir,
  h.sync_dir,
  write_fits io (ack_byte ∷ []) s.dst room,
)

-- Whatever the outcome, a file other than the staged one is as it was, or is the target with the
-- whole staged content.
pub commit_barrier-others :
    (f : Faults) (staged : FilePath) (filename : Bytes) (s : Session) (q : FilePath)
    → q ≢ staged
    → ((commit_barrier f staged filename s).1.disk.live q ≡ s.disk.live q)
      ⊎ ((q ≡ target_path filename)
          × ((commit_barrier f staged filename s).1.disk.live q ≡ flush (s.disk.live staged)))
commit_barrier-others f staged filename s q ne =
    split (commit_barrier f staged filename s) (commit_barrier-Outcome f staged filename s)
  where
    split :
        (o : Result (Unit {0}) × Session)
        → Outcome (λ t. t ≡ committed staged filename s) (Unanswered staged filename s) o
        → (o.1.disk.live q ≡ s.disk.live q)
          ⊎ ((q ≡ target_path filename) × (o.1.disk.live q ≡ flush (s.disk.live staged)))
    split (ok u, t) done =
        subst
          (λ (t : Session).
            (t.disk.live q ≡ s.disk.live q)
            ⊎ ((q ≡ target_path filename) × (t.disk.live q ≡ flush (s.disk.live staged))))
          (sym done) (placed_live staged filename s q ne)
    split (err e, t) h = h.others q ne
