-- ===== src/Lib.antt =====
-- go-xport: a sender daemon watches a directory and ships each file that has come to rest to a
-- receiver daemon, over pinned TLS and the XP1 protocol; the receiver stages, checks and commits
-- the file before it acknowledges it. This library models both daemons, their diagnostics, and the
-- command that starts them.
--
-- The parts, and the files that model them (paths of the program are from the repository's root):
--
--   Common       Boolean tests, lists measured by native numbers, byte strings and the calls of package
--                `strings` on them, families of numbers by goroutine.
--   Wire         internal/wire/protocol.go. Wire/Io: the errors, the result type, the monad `Exec`
--                of calls that change a state, and what the code uses of Go's package `io`: a
--                `Source` is the bytes still to come and the error behind them, a `Sink` the bytes
--                written, how many more it takes, and its error. Wire/Filename: ValidateFilename.
--                Wire/BigEndian: binary.BigEndian. Wire/Header: WriteRequestHeader and
--                ReadRequestHeader. Wire/Response: WriteAck, WriteNack, ReadResponse. Wire/Stream:
--                SendStream and ReceiveStream with io.CopyBuffer, its buffer and its limit.
--                Wire/ByteSize: ParseByteSize. Wire/Deadline: DeadlineConn.
--   Receiver     internal/receiver. Receiver/Disk: the incoming directory, with what the files hold
--                now (`live`) and what a crash would leave of them (`stable`). Receiver/Stager:
--                CreateStagedFile, BootCleanup. Receiver/Commit: CommitBarrier. Receiver/Connection:
--                handleConnection, which reads a header (Wire/Header), stages, receives (Wire/Stream),
--                commits, answers (Wire/Response) and counts (Monitor/Tracker), and in
--                Receiver/Connection/Timing the deadlines that it sets. Receiver/Server: NewServer,
--                Start, Close and acceptLoop; Receiver/Server/Handler: handleConnection again, cut
--                at the calls that other goroutines can see; Receiver/Server/System: both as steps
--                of one server and one disk, in any order; Receiver/Server/Lasting follows a file from
--                its rename past its ACK.
--   Sender       internal/sender. Sender/Items: FileItem, and sort.Slice as the record `Sorter`.
--                Sender/Folder: the watched directory as the paths of its files. Sender/Queue: Queue.
--                Sender/Scanner: scanOnce, which pushes to the queue. Sender/Transfer: transferFile.
--                Sender/Worker: workerLoop and postCommit, which pop from the queue, transfer, and
--                record the outcome in the queue, the scanner and the tracker. Sender/Crew: the
--                scanner and any number of workers as steps on what they share, in any order.
--                Sender/Daemon: the same goroutine by goroutine, with Start and Stop of both and
--                scanLoop. Sender/Dial: ClientPool, NewClientPool and dialPersistent, which takes its
--                configuration from Peers/Config.
--   Monitor      internal/monitor. Monitor/Tracker: Tracker and its counters. Monitor/Status: Evaluate,
--                and below it Disk: GetDiskStats.
--                Monitor/Client: ParseTargets, FormatBytes, EvaluateExitCode, and below it Polling:
--                PollTarget, PollAll and RunMonitor, and Table: the rows of RenderTable.
--                Monitor/Server: NewServer with its guard and its routes, Start, which takes its TLS
--                configuration from Peers/Config, Close, Addr, and what /healthz, /status and
--                /metrics answer.
--   Peers        internal/tlsutil. The pinned fingerprints of verify.go; Peers/Config: its two TLS
--                configurations, and Peers/Trust: whom they let in; Peers/Certs: GenerateCert and
--                LoadCertFingerprint of certs.go.
--   Command      cmd/xport/main.go. Command/Flags: the flags and their defaults. Command/Send,
--                Command/Recv, Command/Status: how the daemons and their status server come up, from
--                the parts above, with Command/Dialing for whom `send` talks to, and
--                Command/Shutdown for how it ends. Command/Keygen, Command/Monitoring: the other
--                subcommands.
--   Tests        the theorems at concrete inputs.
--
-- Numbers are naturals; an unsigned counter or length field wraps at its width, written out. Times
-- and durations are nanoseconds. Texts are lists of bytes. Error values are constructors; the text
-- that wraps them is left out, and where an error's text is sent, `describe` stands for it.
--
-- Parameters: `sum256` is SHA-256, of which 32 bytes of output are assumed and nothing else, so that
-- a theorem speaks of digests and not of collisions; `Sorter` holds what package `sort` documents;
-- `Floats` and `Ratios` hold floating-point numbers and `strconv.ParseFloat`; `Web` holds what requests of
-- package `net/http` are answered, `Net`, `Host` and `Boot` which addresses, key pairs and handshakes
-- packages `net` and `tls` take; `clean_path` is how package `net/http` cleans a path; packages `x509`, `pem` and `tls` are functions on bytes; `Faults`,
-- `FolderFaults`, `Round` and `Turn` say which calls of the operating system fail, the time, and the
-- random bytes.
--
-- Loops: CopyBuffer runs on fuel, the length of its input, which is enough as each round takes at
-- least one byte. The loop of handleConnection is recursion on the list
-- of rounds that begin before the server stops. In Receiver/Server, Sender/Crew and Sender/Daemon a
-- loop is a relation of steps. A worker's own loop runs on a list of turns, with a bound on how many
-- it takes while nothing is pushed. FormatBytes runs on 64 rounds, of which six are enough.
-- A call of the mutex-protected Queue or Scanner is one step. A stream into a staged file, which has
-- a name of its own, is one step; CommitBarrier is two: up to its rename, and the sync of the
-- directory with the ACK, which is nothing to other connections. What a worker does behind
-- transferFile is one step.
--
-- Not modelled: the inside of TLS handshakes and sockets (in the transfers a deadline that runs out is
-- the error `timeout`), when the ticker of scanLoop fires, the parsing of flags by package `flag`,
-- signals, the serving of HTTP by package `net/http`, log messages, and the layout of tables. The
-- context of workerLoop is left out, as cmd/xport cancels it only once Stop has returned. `tracker`
-- and `scanner` are never nil, as cmd/xport passes both.
pub mod Common
pub mod Wire
pub mod Monitor
pub mod Receiver
pub mod Sender
pub mod Peers
pub mod Command
mod Tests
