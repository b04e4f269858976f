-- ===== src/Command/Dialing.antt =====
-- Whom `xport send` of cmd/xport/main.go talks to, by dialPersistent of internal/sender/client.go.
use go_xport.Common.{sym, ◌∙◌, ℕ, ◌+◌, ◌≡◌, subst, true, [], ◌∷◌, List, Option, Bytes, length}
use go_xport.Command.{running}
use go_xport.Command.Exits.{Exits}
use go_xport.Command.Flags.{SendFlags}
use go_xport.Command.Ready.{SendGood, run_send-Exits}
use go_xport.Command.Send.{Sending, SendEnv, run_send}
use go_xport.Peers.{accepted}
use go_xport.Peers.Config.{TlsConfig}
use go_xport.Peers.Trust.{Shows, accepted-Shows}
use go_xport.Sender.Dial.{Net, connection, dial_persistent}
use go_xport.Wire.Deadline.{Deadlines, handshake_timeout}
use go_xport.Wire.Stream.{hash_size}

-- What package `crypto/tls` documents: a handshake succeeds only if the callback has let in the
-- certificates that the server presents.
pub record IsChecked (net : Net) (presented : Bytes → List Bytes) : Type 0 where
  pub checked :
      (addr : Bytes) (cfg : TlsConfig) (deadline : ℕ)
      → net.shakes_hands addr cfg deadline ≡ true
      → cfg.verify_peer (presented addr) ≡ accepted

-- If a worker of `xport send` gets a connection, the receiver at -addr has presented certificates of
-- which the first has one of the fingerprints of -peer-fp, once they are normalised. A handshake
-- succeeds only if the configured callback lets the receiver in, and a digest has 32 bytes.
pub run_send-Shows :
    (sum256 : Bytes → Bytes)
    → ((b : Bytes) → length (sum256 b) ≡ hash_size)
    → (load_key_pair : Bytes → Bytes → Option Bytes) (net : Net) (presented : Bytes → List Bytes)
      (env : SendEnv) (f : SendFlags) (d : Sending) (now : ℕ) (deadlines : Deadlines)
    → IsChecked net presented
    → run_send env f ≡ running d
    → dial_persistent sum256 load_key_pair net now d.pool ≡ connection deadlines
    → Shows sum256 (f.peer_fp ∷ []) (presented f.addr)
run_send-Shows sum256 length-sum256 load_key_pair net presented env f d now deadlines law runs
      dialed =
    let good =
      subst (Exits (SendGood env f) (f.addr ∷ f.cert ∷ f.key ∷ f.peer_fp ∷ [])) runs
        (run_send-Exits env f) in
    let ready = good.1.0 in
    let (cfg, reached, shaken, tls13, verifies) =
      ready.dials sum256 load_key_pair net now deadlines dialed in
    accepted-Shows sum256 length-sum256 (f.peer_fp ∷ []) (presented f.addr)
      (sym (verifies (presented f.addr)) ∙ law.checked f.addr cfg (now + handshake_timeout) shaken)
