-- ===== src/Receiver/Connection/Timing.antt =====
-- The deadlines that handleConnection of internal/receiver/listener.go sets.
use go_xport.Common.{
  ◌<◌, length, lt→leb, arith, refl, append-nil, Bytes, false, if◌then◌else◌, ℕ, ◌+◌, ◌≤◌, ◌≡◌, true,
  List, [], ◌∷◌, le→leb,
}
use go_xport.Monitor.Tracker.{record_error}
use go_xport.Receiver.Commit.{Session}
use go_xport.Receiver.Connection.{Round, Next, leave, ends_quietly, header_failed, refuse}
use go_xport.Wire.Io.{TransferError, IoError, Sink, io, write}
use go_xport.Wire.Response.{write_nack, nack_bytes}
use go_xport.Wire.Deadline.{
  Deadlines, set_deadline, set_read_deadline, is_expired, new_deadline_conn, before_read,
  before_write, handshake_timeout, read_write_timeout, receiver_idle_timeout,
}

-- What the loop does with the connection: it waits for a header; it reads or writes over the
-- DeadlineConn of a file. Each has its time.
pub data Use : Type 0 where
  awaits reads writes : ℕ → Use

-- The deadline of the TLS handshake.
unfoldable pub accept_deadline : ℕ → Deadlines → Deadlines
accept_deadline start d = set_deadline (start + handshake_timeout) d

unfoldable pub use_conn : Use → Deadlines → Deadlines
use_conn (awaits now) d = set_read_deadline (now + receiver_idle_timeout) d
use_conn (reads now) d = (before_read now (new_deadline_conn d read_write_timeout)).conn
use_conn (writes now) d = (before_write now (new_deadline_conn d read_write_timeout)).conn

-- Earlier uses first.
unfoldable pub use_all : List Use → Deadlines → Deadlines
use_all [] d = d
use_all (u ∷ us) d = use_all us (use_conn u d)

-- The writes are long ago.
abbrev pub WritesBefore : ℕ → List Use → Type 0
WritesBefore now [] = Unit {0}
WritesBefore now (writes w ∷ us) = (w + read_write_timeout ≤ now) × WritesBefore now us
WritesBefore now (awaits t ∷ us) = WritesBefore now us
WritesBefore now (reads t ∷ us) = WritesBefore now us

use_all-expired :
    (now : ℕ) (us : List Use) (d : Deadlines)
    → is_expired now d.write_by ≡ true
    → WritesBefore now us
    → is_expired now (use_all us d).write_by ≡ true
unfolding use_all use_conn before_read before_write new_deadline_conn
use_all-expired now [] d h past = h
use_all-expired now (awaits t ∷ us) d h past = use_all-expired now us _ h past
use_all-expired now (reads t ∷ us) d h past = use_all-expired now us _ h past
use_all-expired now (writes w ∷ us) d h past =
    use_all-expired now us _ (le→leb (w + read_write_timeout) now past.0) past.1

-- The sink of the connection itself, for calls that start now.
abbrev pub over_conn : ℕ → Deadlines → Sink → Sink
over_conn now d dst =
    if is_expired now d.write_by then record dst { room = 0; fault = IoError.timeout } else dst

-- A write on a sink without room.
write-full :
    (b : Bytes) (dst : Sink)
    → 0 < length b
    → dst.room ≡ 0
    → (write io b dst).1.written ≡ dst.written
unfolding write
write-full b dst some_byte full = rw (full, lt→leb (length b) 0 some_byte) (append-nil dst.written)

nack_bytes-some : (msg : Bytes) → 0 < length (nack_bytes msg)
unfolding nack_bytes
nack_bytes-some msg = omega arith

module _ (sum256 : Bytes → Bytes) (describe : TransferError → Bytes) (max_size : ℕ) where
  -- What follows a header that is not read: the NACK goes to the connection `c`, as its deadlines are
  -- then, and not to a DeadlineConn.
  unfoldable pub header_error : ℕ → Deadlines → Round → TransferError → Session → Next × Session
  header_error now d r e s =
      header_failed sum256 describe max_size r e (record s { dst = over_conn now d s.dst })

  -- A header that is refused more than ten seconds after the connection was accepted, and more than
  -- sixty after each write of an answer to a file, is not answered by a NACK, however long it was
  -- waited for: nothing is sent; the error is counted and the connection ends.
  pub header_nack-expired :
      (start now : ℕ) (us : List Use) (d : Deadlines) (r : Round) (e : TransferError) (s : Session)
      → start + handshake_timeout ≤ now
      → WritesBefore now us
      → ends_quietly e ≡ false
      → let (next, t) = header_error now (use_all us (accept_deadline start d)) r e s in
        (next ≡ leave)
        × (t.dst.written ≡ s.dst.written)
        × (t.tracker ≡ record_error r.now s.tracker)
  unfolding accept_deadline header_error header_failed refuse write_nack
  header_nack-expired start now us d r e s late past loud =
      let expired =
        use_all-expired now us (set_deadline (start + handshake_timeout) d)
          (le→leb (start + handshake_timeout) now late) past in
      rw (loud, expired)
        (
          refl,
          write-full _ (record s.dst { room = 0; fault = IoError.timeout }) (nack_bytes-some _)
              refl,
          refl,
        )
