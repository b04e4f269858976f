-- ===== src/Command/Ingress.antt =====
-- What `xport recv` of cmd/xport/main.go has when it waits for a signal.
use go_xport.Common.{
  ◌≤◌, ◌⊎◌, ◌<◌, ◌^◌, ◌++◌, IsBytes, ℕ, ◌≡◌, ◌≢◌, ◌↔◌, refl, sym, ap, ◌∙◌, Bool, true, false, List,
  [], ◌∷◌, Option, none, some, Bytes, if◌then◌else◌,
}
use go_xport.Command.{
  Outcome, running, failed, exit_code, missing_flags, no_incoming_dir, no_fingerprints,
  ingress_not_started, bad_max_size,
}
use go_xport.Command.Flags.{RecvFlags, recv_misses}
use go_xport.Command.Exits.{
  Told, late, start_status-Told, missing_flags-code, Given, Exits, Told-Exits, any_empty-Given,
}
use go_xport.Command.Recv.{
  Receiving, RecvEnv, recv_tracker, recv_server, after_start, with_status, with_peers, with_size,
  run_recv,
}
use go_xport.Command.Status.{StatusServer}
use go_xport.Monitor.Server.Guard.{Listens}
use go_xport.Peers.{parse_fingerprints}
use go_xport.Receiver.Disk.{Disk}
use go_xport.Receiver.Server.{Server, StartError, new_server, start}
use go_xport.Receiver.Server.Handler.{Handler, gone}
use go_xport.Receiver.Server.Starting.{start-Same, Admits, start-Admits}
use go_xport.Receiver.Server.System.{Reaches, made, accepting}
use go_xport.Wire.ByteSize.{Floats, Size, size, no_size, parse_byte_size}
use go_xport.Wire.Filename.{validate_filename}
use go_xport.Wire.Header.{header_bytes, read_request_header}
use go_xport.Wire.Header.Canonical.{read_request_header_iff}
use go_xport.Wire.Io.{ok, IoError, TransferError}

-- A handler that has not been started.
abbrev nobody : Handler
nobody = record {
  phase = gone;
  src = record { input = []; fault = IoError.eof };
  dst = record { written = []; room = 0; fault = IoError.broken };
  sent = [];
}

-- The server lets in the peers of -peer-fp, of which there is one at least, by mutual TLS 1.3, and
-- files up to -max-size; and it is a server that NewServer made and Start started.
pub record IsServing (fl : Floats) (env : RecvEnv) (f : RecvFlags) (d : Receiving) : Type 0 where
  pub allowed : d.server.allowed_sender_fps ≡ parse_fingerprints (f.peer_fp ∷ [])
  pub some_peer : d.server.allowed_sender_fps ≢ []
  pub admits : Admits env.boot.sum256 (f.peer_fp ∷ []) d.server.listener
  pub size_is : parse_byte_size fl f.max_size ≡ size d.server.max_size
  pub limit :
      (name : Bytes) (payload_size : ℕ) (rest : Bytes) (fault : IoError)
      → validate_filename name ≡ ok tt
      → payload_size < 2 ^ 64
      → IsBytes (header_bytes name payload_size ++ rest)
      → ((read_request_header d.server.max_size
            (record { input = header_bytes name payload_size ++ rest; fault = fault })).0
          ≡ ok (name, payload_size))
        ↔ ((d.server.max_size ≡ 0) ⊎ (payload_size ≤ d.server.max_size))
  pub system :
      (sum256 : Bytes → Bytes) (describe : TransferError → Bytes)
      → Reaches sum256 describe d.disk (record {
        server = d.server;
        disk = d.disk;
        acceptor = accepting;
        accepted = 0;
        handlers = λ i. nobody;
      })

recv_misses_iff :
    (f : RecvFlags) → (recv_misses f ≡ false) ↔ Given (f.cert ∷ f.key ∷ f.peer_fp ∷ [])
unfolding recv_misses
recv_misses_iff f = any_empty-Given (f.cert ∷ f.key ∷ f.peer_fp ∷ [])

module _ (fl : Floats) (env : RecvEnv) (f : RecvFlags) where
  abbrev Status : StatusServer → Type 0
  Status s = Listens env.host f.status_addr f.status_peer_fp s.listener

  abbrev pub RecvGood : Receiving → Type 0
  RecvGood d = IsServing fl env f d × Status d.status

  after_start-Told :
      (status : StatusServer) (max_size : ℕ) (allowed : List Bytes)
      (o : Option StartError × (Server × Disk))
      → recv_misses f ≡ false
      → parse_byte_size fl f.max_size ≡ size max_size
      → parse_fingerprints (f.peer_fp ∷ []) ≡ allowed
      → allowed ≢ []
      → Status status
      → start env.boot (recv_server env f max_size allowed, env.disk) ≡ o
      → Told RecvGood (recv_misses f) (after_start status o)
  unfolding exit_code new_server
  after_start-Told status max_size allowed (some e, rest) given sized peers some_peer listens h =
      late RecvGood (recv_misses f) ingress_not_started given refl
  after_start-Told status max_size allowed (none, (server, disk)) given sized peers some_peer
        listens h =
      let same = start-Same env.boot (recv_server env f max_size allowed) env.disk h in
      let fps_same : server.allowed_sender_fps ≡ allowed =
        ap (λ (s : Server). s.allowed_sender_fps) same in
      let size_same : server.max_size ≡ max_size = ap (λ (s : Server). s.max_size) same in
      (
        given,
        (
          record {
            allowed = fps_same ∙ sym peers;
            some_peer = λ e. some_peer (sym fps_same ∙ e);
            admits =
                start-Admits env.boot (f.peer_fp ∷ []) (recv_server env f max_size allowed) env.disk
                  (sym peers) h;
            size_is = sized ∙ ap size (sym size_same);
            limit = read_request_header_iff server.max_size;
            system = λ sum256 describe.
                made f.dir f.listen f.cert f.key allowed max_size (recv_tracker env f) env.boot
                  env.disk server (λ i. nobody) (λ i. refl) h;
          },
          listens,
        ),
      )

  with_status-Told :
      (max_size : ℕ) (allowed : List Bytes) (o : Outcome StatusServer)
      → recv_misses f ≡ false
      → parse_byte_size fl f.max_size ≡ size max_size
      → parse_fingerprints (f.peer_fp ∷ []) ≡ allowed
      → allowed ≢ []
      → Told Status (recv_misses f) o
      → Told RecvGood (recv_misses f) (with_status env f max_size allowed o)
  with_status-Told max_size allowed (failed why) given sized peers some_peer h = h
  with_status-Told max_size allowed (running status) given sized peers some_peer h =
      after_start-Told status max_size allowed _ given sized peers some_peer h.1 refl

  with_peers-Told :
      (max_size : ℕ) (allowed : List Bytes)
      → recv_misses f ≡ false
      → parse_byte_size fl f.max_size ≡ size max_size
      → parse_fingerprints (f.peer_fp ∷ []) ≡ allowed
      → Told RecvGood (recv_misses f) (with_peers env f max_size allowed)
  unfolding exit_code
  with_peers-Told max_size [] given sized peers =
      late RecvGood (recv_misses f) no_fingerprints given refl
  with_peers-Told max_size (fp ∷ fps) given sized peers =
      with_status-Told max_size (fp ∷ fps) _ given sized peers (λ e. absurd (cc))
        (start_status-Told env.host f.status_addr f.cert f.key f.status_peer_fp (recv_misses f)
          given)

  with_size-Told :
      (o : Size)
      → recv_misses f ≡ false
      → parse_byte_size fl f.max_size ≡ o
      → Told RecvGood (recv_misses f) (with_size env f o)
  unfolding exit_code
  with_size-Told (no_size e) given sized = late RecvGood (recv_misses f) bad_max_size given refl
  with_size-Told (size max_size) given sized = by_dir env.make_dir
    where
      by_dir :
          (b : Bool)
          → Told RecvGood (recv_misses f) (
              if b
              then with_peers env f max_size (parse_fingerprints (f.peer_fp ∷ []))
              else failed no_incoming_dir)
      by_dir true = with_peers-Told max_size (parse_fingerprints (f.peer_fp ∷ [])) given sized refl
      by_dir false = late RecvGood (recv_misses f) no_incoming_dir given refl

  run_recv-Told : Told RecvGood (recv_misses f) (run_recv fl env f)
  unfolding run_recv
  run_recv-Told = by_flags (recv_misses f) refl
    where
      by_flags :
          (b : Bool)
          → recv_misses f ≡ b
          → Told RecvGood
              (recv_misses f)
              (if b then failed missing_flags else with_size env f (parse_byte_size fl f.max_size))
      by_flags true missing = rw missing missing_flags-code
      by_flags false given = with_size-Told (parse_byte_size fl f.max_size) given refl

  -- `xport recv` exits with 2 exactly if -cert, -key or -peer-fp is empty, and with 1 if it fails
  -- otherwise. If it comes to wait for a signal, they are all given; the ingress server asks
  -- for a certificate over TLS 1.3, and lets in exactly the fingerprints of -peer-fp, of which there is
  -- one at least; its limit is the size that -max-size is read as, and it accepts the
  -- header of a valid name and a size below 2^64 exactly if the size is within the limit, or the
  -- limit is 0, which is none; and it has been made by NewServer and started by Start; and the status
  -- server listens in the clear only on a loopback address, and else by mutual TLS pinned to
  -- -status-peer-fp.
  pub run_recv-Exits : Exits RecvGood (f.cert ∷ f.key ∷ f.peer_fp ∷ []) (run_recv fl env f)
  run_recv-Exits =
      Told-Exits RecvGood (recv_misses f) (f.cert ∷ f.key ∷ f.peer_fp ∷ []) (recv_misses_iff f)
        (run_recv fl env f) run_recv-Told
