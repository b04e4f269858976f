-- ===== src/Sender/Dial/Pinned.antt =====
-- Whom dialPersistent of internal/sender/client.go connects to.
use go_xport.Common.{
  ℕ, ◌+◌, ◌≡◌, refl, subst, true, List, Option, none, some, Bytes, Bool-cases, inl, inr,
}
use go_xport.Peers.{parse_fingerprints, verify_peer_certificate}
use go_xport.Peers.Config.{TlsConfig, new_client_config}
use go_xport.Peers.Trust.{new_client_config-parsed}
use go_xport.Sender.Dial.{Net, ClientPool, connection, hand_shake, dial, dial_persistent}
use go_xport.Wire.Deadline.{Deadlines, handshake_timeout}

-- A connection has its configuration and its handshake.
dial-connection :
    (net : Net) (now : ℕ) (addr : Bytes) (o : Option TlsConfig) (deadlines : Deadlines)
    → dial net now addr o ≡ connection deadlines
    → (cfg : TlsConfig) × (o ≡ some cfg)
      × (net.connects addr handshake_timeout ≡ true)
      × (net.shakes_hands addr cfg (now + handshake_timeout) ≡ true)
unfolding dial hand_shake
dial-connection net now addr none deadlines h = absurd (cc)
dial-connection net now addr (some cfg) deadlines h =
    elim (Bool-cases (net.connects addr handshake_timeout)) [
      | inr lost ↦ absurd (let e = rw lost at h in cc)
      | inl reached ↦ elim (Bool-cases (net.shakes_hands addr cfg (now + handshake_timeout))) [
        | inl shaken ↦ (cfg, refl, reached, shaken)
        | inr fails ↦ absurd (let e = rw (reached, fails) at h in cc)
      ]
    ]

-- Each connection of the pool goes to the address, with a handshake over TLS 1.3 whose callback lets in
-- the peers with these fingerprints, and no others.
abbrev pub Dials : Bytes → List Bytes → ClientPool → Type 0
Dials addr allowed p =
    (sum256 : Bytes → Bytes) (load_key_pair : Bytes → Bytes → Option Bytes) (net : Net) (now : ℕ)
    (deadlines : Deadlines)
    → dial_persistent sum256 load_key_pair net now p ≡ connection deadlines
    → (cfg : TlsConfig) × (net.connects addr handshake_timeout ≡ true)
      × (net.shakes_hands addr cfg (now + handshake_timeout) ≡ true)
      × (cfg.tls13 ≡ true)
      × ((certs : List Bytes)
          → cfg.verify_peer certs ≡ verify_peer_certificate sum256 allowed certs)

pub dial_persistent-Dials :
    (allowed : List Bytes) (p : ClientPool)
    → p.allowed_receiver_fp ≡ parse_fingerprints allowed
    → Dials p.target_addr allowed p
unfolding dial_persistent
dial_persistent-Dials allowed p parsed sum256 load_key_pair net now deadlines dialed =
    let (cfg, made, reached, shaken) = dial-connection net now p.target_addr _ deadlines dialed in
    let (tls13, verifies) =
      new_client_config-parsed sum256 load_key_pair p.cert_file p.key_file allowed cfg (
        subst (λ fps. new_client_config sum256 load_key_pair p.cert_file p.key_file fps ≡ some cfg)
          parsed made) in
    (cfg, reached, shaken, tls13, verifies)
