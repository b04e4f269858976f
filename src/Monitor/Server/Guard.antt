-- ===== src/Monitor/Server/Guard.antt =====
-- The status listener of internal/monitor/server.go is in the clear on the loopback interface only.
use go_xport.Common.{
  ◌≡◌, ◌≢◌, inl, inr, refl, subst, ap, ◌∙◌, Bool, true, false, not, ◌&&◌, ◌||◌, [], ◌∷◌, Bytes,
  Option, none, some, equal, equal_refl, if◌then◌else◌, Bool-cases, arith,
}
use mathlib.Core.Option.{some-injective}
use go_xport.Monitor.Server.{
  Host, Server, StartError, Listener, plain, mutual_tls, host_or, is_loopback, listen, listen_tls,
  new_server, start,
}
use go_xport.Peers.Trust.{IsPinned}
use go_xport.Peers.Config.{TlsConfig, server_config_of, new_server_config}

module _ (host : Host) (bind_addr status_peer_fp : Bytes) where
  abbrev pub IsLocal : Type 0
  IsLocal = is_loopback (host_or bind_addr (host.split_host bind_addr)) ≡ true

  -- How the server that NewServer makes listens.
  pub data Listens : Option Listener → Type 0 where
    clear : (addr : Bytes) → IsLocal → Listens (some (plain addr))
    pinned :
        (addr : Bytes) (cfg : TlsConfig)
        → (IsLocal → ⊥)
        → status_peer_fp ≢ []
        → IsPinned host.sum256 (status_peer_fp ∷ []) cfg
        → Listens (some (mutual_tls addr cfg))

  -- Where Start ends.
  abbrev Ends : Option StartError × Server → Type 0
  Ends (some e, s) = Unit {0}
  Ends (none, s) = Listens s.listener

  listen-Ends :
      (o : Option Bytes) (kind : Bytes → Listener) (s : Server)
      → ((addr : Bytes) → Listens (some (kind addr)))
      → Ends (listen o kind s)
  listen-Ends none kind s h = tt
  listen-Ends (some addr) kind s h = h addr

  listen_tls-Ends :
      (o : Option Bytes) (cert : Option Bytes) (s : Server)
      → (IsLocal → ⊥)
      → status_peer_fp ≢ []
      → Ends (
          listen_tls o
            (server_config_of host.sum256 host.load_key_pair cert (status_peer_fp ∷ []))
            s)
  listen_tls-Ends o none s remote given = tt
  listen_tls-Ends o (some cert) s remote given = listen-Ends o _ s (λ addr.
      Listens.pinned addr _ remote given
        (record { tls13 = refl; client_auth = refl; verify_peer = λ certs. refl }))

  start-Ends :
      (s : Server) (is_local : Bool)
      → is_loopback (host_or bind_addr (host.split_host bind_addr)) ≡ is_local
      → not is_local && equal status_peer_fp [] ≡ false
      → Ends (
          if is_local || equal status_peer_fp []
          then listen host.listens plain s
          else listen_tls host.listens
              (new_server_config host.sum256 host.load_key_pair s.cert_file s.key_file
                (status_peer_fp ∷ []))
              s)
  unfolding new_server_config
  start-Ends s true e h = listen-Ends host.listens plain s (λ addr. Listens.clear addr e)
  start-Ends s false e h = rw h (
      listen_tls-Ends host.listens (host.load_key_pair s.cert_file s.key_file) s (λ l. absurd (cc))
        (λ empty.
          let same = equal_refl status_peer_fp in
          let none_left = subst (λ fp. equal status_peer_fp fp ≡ true) empty same in absurd (cc)))

  -- If NewServer makes a server and Start succeeds, it listens in the clear only on a loopback address;
  -- on any other it listens by TLS 1.3, asks for a certificate, and lets in the peers with the
  -- configured fingerprint only, which is not empty.
  pub new_server-Listens :
      (cert_file key_file : Bytes) (s t : Server)
      → new_server host bind_addr cert_file key_file status_peer_fp ≡ some s
      → start host s ≡ (none, t)
      → Listens t.listener
  unfolding new_server start
  new_server-Listens cert_file key_file s t made starts =
      elim (Bool-cases (
        not (is_loopback (host_or bind_addr (host.split_host bind_addr)))
        && equal status_peer_fp [])) [
          | inl refused ↦ (let impossible = rw refused at made in absurd (ground arith))
          | inr fine ↦
              let same = some-injective _ s (rw fine at made) in
              subst Ends (ap (start host) same ∙ starts) (
                start-Ends _ (is_loopback (host_or bind_addr (host.split_host bind_addr))) refl
                  fine)
        ]
