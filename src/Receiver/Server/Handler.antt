-- ===== src/Receiver/Server/Handler.antt =====
-- The goroutine of one connection in internal/receiver/listener.go: handleConnection cut at the calls
-- that other connections can see, and the deferred calls behind it.
use go_xport.Common.{ℕ, ◌≡◌, Bool, false, [], Bytes, codes, take, if◌then◌else◌}
use go_xport.Receiver.Commit.{Session, move_in, persist}
use go_xport.Receiver.Connection.{
  Round, Next, stay, leave, refuse, header_failed, after_commit, after_stream,
}
use go_xport.Receiver.Disk.{Disk, FilePath, fill}
use go_xport.Receiver.Server.{Server, list_conn, subtract_conn, publish, count_error}
use go_xport.Receiver.Stager.{create_staged_file}
use go_xport.Wire.Header.{read_request_header}
use go_xport.Wire.Io.{Result, ok, err, TransferError, IoError, Source, Sink}
use go_xport.Wire.Stream.{Copy, receive_stream}

-- Where a handler stands: before or behind the others, in the handshake, at the top of the loop, with
-- a staged file that is to be streamed into or to be renamed, with a file that has its final name, or
-- at the deferred calls.
pub data Phase : Type 0 where
  gone greeting waiting leaving unlisted subtracted : Phase
  receiving committing : Bytes → ℕ → FilePath → Phase
  placed : Bytes → ℕ → Phase
  loaded : ℕ → Phase

-- `sent` is all that the client sends; `src` has the part that is not read yet.
pub record Handler : Type 0 where
  pub phase : Phase
  pub src : Source
  pub dst : Sink
  pub sent : Bytes

-- A handler beside what it shares with the others.
pub record State : Type 0 where
  pub server : Server
  pub disk : Disk
  pub handler : Handler

abbrev pub session : State → Session
session x = record {
  disk = x.disk;
  src = x.handler.src;
  dst = x.handler.dst;
  tracker = x.server.tracker;
}

abbrev pub with_session : Phase → Session → State → State
with_session phase s x = record {
  server = record x.server { tracker = s.tracker };
  disk = s.disk;
  handler = record x.handler { phase = phase; src = s.src; dst = s.dst };
}

abbrev pub enter : Phase → State → State
enter phase x = record x { handler = record x.handler { phase = phase } }

-- The next round, or the return.
abbrev pub next_phase : Next → Phase
next_phase stay = waiting
next_phase leave = leaving

abbrev pub rejoin : Next × Session → State → State
rejoin (next, s) x = with_session (next_phase next) s x

-- The TLS handshake.
unfoldable pub greet : Bool → ℕ → State → State
greet failed now x =
    if failed
    then enter leaving (record x { server = count_error now x.server })
    else enter waiting x

module _ (sum256 : Bytes → Bytes) (describe : TransferError → Bytes) where
  unfoldable pub stage : Round → Bytes → ℕ → State → Result FilePath × Disk → State
  stage r filename size x (ok staged, d) =
      enter (receiving filename size staged) (record x { disk = d })
  stage r filename size x (err e, d) =
      rejoin
        (refuse sum256 describe x.server.max_size r (codes "internal error creating staging file: ")
          e (record (session x) { disk = d }))
        x

  unfoldable pub read_header : Round → State → Result (Bytes × ℕ) × Source → State
  read_header r x (ok (filename, size), src) =
      stage r filename size (record x { handler = record x.handler { src = src } })
        (create_staged_file r.faults r.rand x.disk)
  read_header r x (err e, src) =
      rejoin
        (header_failed sum256 describe x.server.max_size r e (record (session x) { src = src })) x

  -- The top of the loop, up to the staged file.
  unfoldable pub read_next : Round → State → State
  read_next r x =
      if x.server.stopped
      then enter leaving x
      else read_header r x (read_request_header x.server.max_size x.handler.src)

  unfoldable pub received : Round → Bytes → ℕ → FilePath → State → Result (Unit {0}) × Copy → State
  received r filename size staged x (ok _, c) =
      with_session (committing filename size staged)
        (record (session x) { disk = fill staged c.dst.written x.disk; src = c.src }) x
  received r filename size staged x (err e, c) =
      rejoin
        (after_stream sum256 describe x.server.max_size r staged filename size (session x)
          (err e, c))
        x

  -- The stream into the staged file, and what follows its failure.
  unfoldable pub receive : Round → Bytes → ℕ → FilePath → State → State
  receive r filename size staged x =
      let file : Sink = record { written = []; room = r.faults.room; fault = IoError.broken } in
      received r filename size staged x
        (receive_stream sum256 size (record { src = x.handler.src; dst = file; hashed = [] }))

  unfoldable pub moved : Round → Bytes → ℕ → State → Result (Unit {0}) × Session → State
  moved r filename size x (ok _, s) = with_session (placed filename size) s x
  moved r filename size x (err e, s) =
      rejoin (after_commit sum256 describe x.server.max_size r size (err e, s)) x

  -- CommitBarrier up to the rename, and what follows its failure.
  unfoldable pub move : Round → Bytes → ℕ → FilePath → State → State
  move r filename size staged x =
      moved r filename size x (move_in r.faults staged filename (session x))

  -- CommitBarrier behind the rename, and what follows it.
  unfoldable pub acknowledge : Round → ℕ → State → State
  acknowledge r size x =
      rejoin (after_commit sum256 describe x.server.max_size r size (persist r.faults (session x)))
        x

  -- What a handler does next. The client, or Close, can cut the connection at any time: what is
  -- still to be read may end early, and writes may fail.
  pub data Acts (i : ℕ) (x : State) : State → Type 0 where
    greets : (failed : Bool) (now : ℕ) → x.handler.phase ≡ greeting → Acts i x (greet failed now x)
    reads : (r : Round) → x.handler.phase ≡ waiting → Acts i x (read_next r x)
    receives :
        (r : Round) {filename : Bytes} {size : ℕ} {staged : FilePath}
        → x.handler.phase ≡ receiving filename size staged
        → Acts i x (receive r filename size staged x)
    moves :
        (r : Round) {filename : Bytes} {size : ℕ} {staged : FilePath}
        → x.handler.phase ≡ committing filename size staged
        → Acts i x (move r filename size staged x)
    acknowledges :
        (r : Round) {filename : Bytes} {size : ℕ}
        → x.handler.phase ≡ placed filename size
        → Acts i x (acknowledge r size x)
    unlists :
        x.handler.phase ≡ leaving
        → Acts i x (enter unlisted (record x { server = list_conn i false x.server }))
    subtracts :
        x.handler.phase ≡ unlisted
        → Acts i x (enter subtracted (record x { server = subtract_conn x.server }))
    loads : x.handler.phase ≡ subtracted → Acts i x (enter (loaded x.server.active_conn_count) x)
    publishes :
        {count : ℕ}
        → x.handler.phase ≡ loaded count
        → Acts i x (enter gone (record x { server = publish count x.server }))
    is_cut :
        (left : ℕ) (fault : IoError) (dst : Sink)
        → Acts i x (record x {
          handler = record x.handler {
            src = record { input = take left x.handler.src.input; fault = fault };
            dst = dst;
          };
        })
