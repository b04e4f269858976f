-- ===== src/Receiver/Connection.antt =====
-- handleConnection of internal/receiver/listener.go. A deadline that runs out is the read error
-- `timeout` of the source.
pub mod Safety
pub mod Answers
pub mod Sequence
pub mod Timing
use go_xport.Common.{ℕ, Bool, true, false, [], ◌∷◌, ◌++◌, List, Bytes, codes, if◌then◌else◌}
use go_xport.Monitor.Tracker.{record_error, record_success}
use go_xport.Receiver.Commit.{Session, commit_barrier}
use go_xport.Receiver.Disk.{Disk, FilePath, Faults, fill, try_remove}
use go_xport.Receiver.Stager.{create_staged_file}
use go_xport.Wire.Header.{read_request_header}
use go_xport.Wire.Io.{Result, ok, err, TransferError, IoError, io, Source, Sink}
use go_xport.Wire.Response.{write_nack}
use go_xport.Wire.Stream.{Copy, receive_stream}

-- What the environment decides in one round of the loop: the failing calls, the random bytes of
-- the staged file's name, and the time.
pub record Round : Type 0 where
  pub faults : Faults
  pub rand : Bytes
  pub now : ℕ

-- The loop goes on, or the handler returns.
pub data Next : Type 0 where
  stay leave : Next

-- The client closed the connection, or was idle for too long: no answer and no error count.
abbrev pub ends_quietly : TransferError → Bool
ends_quietly (io IoError.eof) = true
ends_quietly (io IoError.closed) = true
ends_quietly (io IoError.timeout) = true
ends_quietly _ = false

-- The next round, or the end.
abbrev pub continue : (Session → Session) → Next × Session → Session
continue again (stay, s) = again s
continue again (leave, s) = s

-- `tracker` is not nil, as cmd/xport passes one. `describe` is the text of an error, `max_size`
-- the field maxSize.
module _ (sum256 : Bytes → Bytes) (describe : TransferError → Bytes) (max_size : ℕ) where
  -- `_ = wire.WriteNack(c, …)` and the count of the error, before the return
  unfoldable pub refuse : Round → Bytes → TransferError → Session → Next × Session
  refuse r context e s = (
    leave,
    record s {
      dst = (write_nack (context ++ describe e) s.dst).1;
      tracker = record_error r.now s.tracker;
    },
  )

  unfoldable pub header_failed : Round → TransferError → Session → Next × Session
  header_failed r e s = if ends_quietly e then (leave, s) else refuse r [] e s

  unfoldable pub after_commit : Round → ℕ → Result (Unit {0}) × Session → Next × Session
  after_commit r size (ok _, s) = (stay, record s { tracker = record_success r.now size s.tracker })
  after_commit r size (err e, s) = refuse r (codes "commit barrier failure: ") e s

  -- The staged file holds what was written to it when the stream ends.
  unfoldable pub after_stream :
      Round → FilePath → Bytes → ℕ → Session → Result (Unit {0}) × Copy → Next × Session
  after_stream r staged filename size s (ok _, c) = after_commit r size (
      commit_barrier r.faults staged filename
        (record s { disk = fill staged c.dst.written s.disk; src = c.src }))
  after_stream r staged filename size s (err e, c) =
      refuse r (codes "stream failure: ") e (record s {
        disk = try_remove r.faults staged (fill staged c.dst.written s.disk);
        src = c.src;
      })

  unfoldable pub after_staging :
      Round → Bytes → ℕ → Session → Result FilePath × Disk → Next × Session
  after_staging r filename size s (ok staged, d) =
      let file : Sink = record { written = []; room = r.faults.room; fault = IoError.broken } in
      after_stream r staged filename size (record s { disk = d })
        (receive_stream sum256 size (record { src = s.src; dst = file; hashed = [] }))
  after_staging r filename size s (err e, d) =
      refuse r (codes "internal error creating staging file: ") e (record s { disk = d })

  unfoldable pub after_header : Round → Session → Result (Bytes × ℕ) × Source → Next × Session
  after_header r s (ok (filename, size), src) =
      after_staging r filename size (record s { src = src })
        (create_staged_file r.faults r.rand s.disk)
  after_header r s (err e, src) = header_failed r e (record s { src = src })

  -- One round of the loop.
  unfoldable pub serve : Round → Session → Next × Session
  serve r s = after_header r s (read_request_header max_size s.src)

  -- The rounds that begin before `stopCh` is closed.
  unfoldable pub handle_connection : List Round → Session → Session
  handle_connection [] s = s
  handle_connection (r ∷ rs) s = continue (handle_connection rs) (serve r s)
