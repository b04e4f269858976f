-- ===== src/Receiver/Server/System.antt =====
-- The accept loop of internal/receiver/listener.go, the handlers it starts and Close, interleaved in
-- any order.
use go_xport.Common.{set, ℕ, suc, ◌<◌, ◌≡◌, true, List, none, Bytes, IsBytes, if◌then◌else◌}
use go_xport.Monitor.Tracker.{Tracker}
use go_xport.Receiver.Disk.{Disk}
use go_xport.Receiver.Server.{
  Server, Boot, new_server, start, list_conn, add_conn, publish, count_error,
}
use go_xport.Receiver.Server.Handler.{Handler, State, Acts, gone, greeting}
use go_xport.Wire.Io.{Source, Sink, TransferError}

-- Where acceptLoop stands: in Accept, behind it, with the connection listed, counted, the count
-- loaded and published, or returned.
pub data AcceptPhase : Type 0 where
  accepting fresh listed added published ended : AcceptPhase
  count_loaded : ℕ → AcceptPhase

-- `accepted` connections have a handler.
pub record System : Type 0 where
  pub server : Server
  pub disk : Disk
  pub acceptor : AcceptPhase
  pub accepted : ℕ
  pub handlers : ℕ → Handler

-- Accept returns an error.
unfoldable pub accept_failed : ℕ → System → System
accept_failed now s =
    if s.server.stopped
    then record s { acceptor = ended }
    else record s { server = count_error now s.server }

-- The first part of Close, which `closeOnce` lets happen once; the listener accepts no more, and keeps
-- its address.
unfoldable pub halt : System → System
halt s = record s { server = record s.server { stopped = true } }

abbrev pub view : System → ℕ → State
view s i = record { server = s.server; disk = s.disk; handler = s.handlers i }

abbrev pub put_back : System → ℕ → State → System
put_back s i x = record s {
  server = x.server;
  disk = x.disk;
  handlers = set s.handlers i x.handler;
}

abbrev pub new_handler : Source → Sink → Handler
new_handler src dst = record { phase = greeting; src = src; dst = dst; sent = src.input }

module _ (sum256 : Bytes → Bytes) (describe : TransferError → Bytes) where
  pub data Step (s : System) : System → Type 0 where
    accepts : s.acceptor ≡ accepting → Step s (record s { acceptor = fresh })
    accept_fails : (now : ℕ) → s.acceptor ≡ accepting → Step s (accept_failed now s)
    lists :
        s.acceptor ≡ fresh
        → Step s (record s { acceptor = listed; server = list_conn s.accepted true s.server })
    adds : s.acceptor ≡ listed → Step s (record s { acceptor = added; server = add_conn s.server })
    loads_count :
        s.acceptor ≡ added
        → Step s (record s { acceptor = count_loaded s.server.active_conn_count })
    publishes_count :
        {count : ℕ}
        → s.acceptor ≡ count_loaded count
        → Step s (record s { acceptor = published; server = publish count s.server })
    spawns :
        (src : Source) (dst : Sink)
        → IsBytes src.input
        → s.acceptor ≡ published
        → Step s (record s {
          acceptor = accepting;
          accepted = suc s.accepted;
          handlers = set s.handlers s.accepted (new_handler src dst);
        })
    handles :
        (i : ℕ) {x : State}
        → i < s.accepted
        → Acts sum256 describe i (view s i) x
        → Step s (put_back s i x)
    halts : Step s (halt s)

  -- `disk` is what the cleanup of Start leaves. Start has returned nil on a server that NewServer has made: no connection yet.
  pub data Reaches (disk : Disk) : System → Type 0 where
    made :
        (incoming_dir listen_addr cert_file key_file : Bytes) (allowed_sender_fps : List Bytes)
        (max_size : ℕ) (tracker : Tracker) (b : Boot) (before : Disk) (server : Server)
        (handlers : ℕ → Handler)
        → ((i : ℕ) → (handlers i).phase ≡ gone)
        → start b (
          new_server incoming_dir listen_addr cert_file key_file allowed_sender_fps max_size
              tracker,
          before,
        )
          ≡ (none, (server, disk))
        → Reaches disk (record {
          server = server;
          disk = disk;
          acceptor = accepting;
          accepted = 0;
          handlers = handlers;
        })
    later : {s t : System} → Reaches disk s → Step s t → Reaches disk t
