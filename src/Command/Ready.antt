-- ===== src/Command/Ready.antt =====
-- What the daemons of cmd/xport/main.go have when they wait for a signal, and how they exit before.
use go_xport.Common.{
  ℕ, ◌≤◌, ◌≡◌, ◌≢◌, ◌↔◌, refl, sym, Bool, true, false, List, [], ◌∷◌, Bytes, arith, if◌then◌else◌,
}
use go_xport.Command.{
  Outcome, running, failed, exit_code, missing_flags, no_watch_dir, no_fingerprints,
}
use go_xport.Command.Exits.{
  Told, late, start_status-Told, missing_flags-code, Given, Exits, Told-Exits, any_empty-Given,
}
use go_xport.Command.Flags.{SendFlags, send_misses}
use go_xport.Command.Send.{Sending, SendEnv, send_tracker, with_status, with_peers, run_send}
use go_xport.Command.Status.{StatusServer}
use go_xport.Monitor.Server.Guard.{Listens}
use go_xport.Peers.{parse_fingerprints}
use go_xport.Sender.Daemon.{started, new_daemon}
use go_xport.Sender.Dial.{new_client_pool}
use go_xport.Sender.Dial.Pinned.{Dials, dial_persistent-Dials}
use go_xport.Sender.Crew.Alone.{IsCrew, new_crew-IsCrew}

-- The workers are one or more, dial -addr, and let in the peers of -peer-fp, of which there is one;
-- and the queue, the scanner and their goroutines start out in order.
pub record IsReady (env : SendEnv) (f : SendFlags) (d : Sending) : Type 0 where
  pub dials : Dials f.addr (f.peer_fp ∷ []) d.pool
  pub some_peer : d.pool.allowed_receiver_fp ≢ []
  pub workers : 1 ≤ d.pool.parallel
  pub crew : IsCrew d.daemon.crew
  pub goroutines :
      d.daemon
      ≡ new_daemon d.pool.parallel f.max_attempts (send_tracker env f) env.unreadable env.folder

send_misses_iff :
    (f : SendFlags) → (send_misses f ≡ false) ↔ Given (f.addr ∷ f.cert ∷ f.key ∷ f.peer_fp ∷ [])
unfolding send_misses
send_misses_iff f = any_empty-Given (f.addr ∷ f.cert ∷ f.key ∷ f.peer_fp ∷ [])

new_client_pool-workers :
    (watch_dir target_addr cert_file key_file : Bytes) (allowed : List Bytes) (parallel : ℕ)
    (after_action : Bytes)
    → 1
      ≤ (new_client_pool watch_dir target_addr cert_file key_file allowed parallel
          after_action).parallel
unfolding new_client_pool
new_client_pool-workers watch_dir target_addr cert_file key_file allowed parallel after_action =
    ground arith

module _ (env : SendEnv) (f : SendFlags) where
  abbrev pub SendGood : Sending → Type 0
  SendGood d = IsReady env f d × Listens env.host f.status_addr f.status_peer_fp d.status.listener

  send_status-Told :
      (allowed : List Bytes) (o : Outcome StatusServer)
      → send_misses f ≡ false
      → parse_fingerprints (f.peer_fp ∷ []) ≡ allowed
      → allowed ≢ []
      → Told
          (λ (s : StatusServer). Listens env.host f.status_addr f.status_peer_fp s.listener)
          (send_misses f)
          o
      → Told SendGood (send_misses f) (with_status env f allowed o)
  unfolding new_client_pool started
  send_status-Told allowed (failed why) given peers some_peer h = h
  send_status-Told allowed (running status) given peers some_peer h = (
    given,
    (
      record {
        dials =
            dial_persistent-Dials (f.peer_fp ∷ [])
              (new_client_pool f.dir f.addr f.cert f.key allowed f.parallel f.after) (sym peers);
        some_peer = some_peer;
        workers = new_client_pool-workers f.dir f.addr f.cert f.key allowed f.parallel f.after;
        crew = new_crew-IsCrew f.max_attempts (send_tracker env f) env.unreadable env.folder;
        goroutines = refl;
      },
      h.1,
    ),
  )

  send_peers-Told :
      (allowed : List Bytes)
      → send_misses f ≡ false
      → parse_fingerprints (f.peer_fp ∷ []) ≡ allowed
      → Told SendGood (send_misses f) (with_peers env f allowed)
  unfolding exit_code
  send_peers-Told [] given peers = late SendGood (send_misses f) no_fingerprints given refl
  send_peers-Told (fp ∷ fps) given peers =
      send_status-Told (fp ∷ fps) _ given peers (λ e. absurd (cc))
        (start_status-Told env.host f.status_addr f.cert f.key f.status_peer_fp (send_misses f)
          given)

  run_send-Told : Told SendGood (send_misses f) (run_send env f)
  unfolding run_send exit_code
  run_send-Told = by_flags (send_misses f) refl
    where
      by_dir :
          (b : Bool)
          → send_misses f ≡ false
          → Told SendGood (send_misses f) (
              if b
              then with_peers env f (parse_fingerprints (f.peer_fp ∷ []))
              else failed no_watch_dir)
      by_dir true given = send_peers-Told (parse_fingerprints (f.peer_fp ∷ [])) given refl
      by_dir false given = late SendGood (send_misses f) no_watch_dir given refl

      by_flags :
          (b : Bool)
          → send_misses f ≡ b
          → Told SendGood (send_misses f) (
              if b
              then failed missing_flags
              else (if env.make_dir
                  then with_peers env f (parse_fingerprints (f.peer_fp ∷ []))
                  else failed no_watch_dir))
      by_flags true missing = rw missing missing_flags-code
      by_flags false given = by_dir env.make_dir given

  -- `xport send` exits with 2 exactly if -addr, -cert, -key or -peer-fp is empty, and with 1 if it
  -- fails otherwise. If it comes to wait for a signal, they are all given; the workers are one or
  -- more; each connection that they dial goes to -addr, with a handshake over TLS 1.3 that lets in
  -- exactly the fingerprints of -peer-fp, of which there is one at least;
  -- the queue and the scanner start out in order; and the status server listens in the clear only on a
  -- loopback address, and else by mutual TLS pinned to -status-peer-fp.
  pub run_send-Exits : Exits SendGood (f.addr ∷ f.cert ∷ f.key ∷ f.peer_fp ∷ []) (run_send env f)
  run_send-Exits =
      Told-Exits SendGood (send_misses f) (f.addr ∷ f.cert ∷ f.key ∷ f.peer_fp ∷ [])
        (send_misses_iff f) (run_send env f) run_send-Told
