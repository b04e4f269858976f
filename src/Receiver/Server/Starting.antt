-- ===== src/Receiver/Server/Starting.antt =====
-- What Start of internal/receiver/listener.go changes of the server.
use go_xport.Common.{◌≡◌, refl, subst, ap, List, Option, none, some, Bytes}
use go_xport.Peers.{parse_fingerprints}
use go_xport.Peers.Config.{TlsConfig, new_server_config}
use go_xport.Peers.Trust.{IsPinned, new_server_config-IsPinned}
use go_xport.Receiver.Disk.{Disk}
use go_xport.Receiver.Server.{
  Server, TlsListener, Boot, StartError, listen, with_config, after_cleanup, start,
}
use go_xport.Receiver.Stager.{boot_cleanup}
use go_xport.Wire.Io.{Result, ok, err}

-- At most the listener.
abbrev Same : Server → Server → Type 0
Same s s' = s' ≡ record s { listener = s'.listener }

with_config-Same :
    (listens : Option Bytes) (o : Option TlsConfig) (s : Server)
    → Same s (with_config listens o s).1
with_config-Same listens none s = refl
with_config-Same none (some cfg) s = refl
with_config-Same (some addr) (some cfg) s = refl

after_cleanup-Same :
    (b : Boot) (s : Server) (o : Result (Unit {0}) × Disk) → Same s (after_cleanup b s o).1.0
after_cleanup-Same b s (ok _, d) =
    with_config-Same b.listens
      (new_server_config b.sum256 b.load_key_pair s.cert_file s.key_file s.allowed_sender_fps) s
after_cleanup-Same b s (err e, d) = refl

pub start-Same :
    (b : Boot) (s : Server) (d : Disk) {s' : Server} {d' : Disk}
    → start b (s, d) ≡ (none, (s', d'))
    → s' ≡ record s { listener = s'.listener }
unfolding start
start-Same b s d e =
    subst (Same s) (ap (λ (o : Option StartError × (Server × Disk)). o.1.0) e)
      (after_cleanup-Same b s (boot_cleanup b.make_dir b.stuck d))

-- A listener whose configuration lets in the peers with these fingerprints only.
abbrev pub Admits : (Bytes → Bytes) → List Bytes → Option TlsListener → Type 0
Admits sum256 allowed none = ⊥
Admits sum256 allowed (some l) = IsPinned sum256 allowed l.config

-- Where Start ends.
abbrev Ends : Boot → List Bytes → Option StartError × (Server × Disk) → Type 0
Ends b allowed (some e, rest) = Unit {0}
Ends b allowed (none, (s, d)) = Admits b.sum256 allowed s.listener

with_config-Ends :
    (b : Boot) (allowed : List Bytes) (o : Option TlsConfig) (s : Server) (d : Disk)
    → ((cfg : TlsConfig) → o ≡ some cfg → IsPinned b.sum256 allowed cfg)
    → Ends b allowed (let (failure, s') = with_config b.listens o s in (failure, (s', d)))
with_config-Ends b allowed none s d h = tt
with_config-Ends b allowed (some cfg) s d h = opened b.listens
  where
    opened :
        (listens : Option Bytes)
        → Ends b allowed (let (failure, s') = listen listens cfg s in (failure, (s', d)))
    opened none = tt
    opened (some addr) = h cfg refl

after_cleanup-Ends :
    (b : Boot) (fps : List Bytes) (s : Server) (o : Result (Unit {0}) × Disk)
    → s.allowed_sender_fps ≡ parse_fingerprints fps
    → Ends b fps (after_cleanup b s o)
after_cleanup-Ends b fps s (err e, d) parsed = tt
after_cleanup-Ends b fps s (ok _, d) parsed = with_config-Ends b fps _ s d (λ cfg made.
    new_server_config-IsPinned b.sum256 b.load_key_pair s.cert_file s.key_file fps cfg (
      subst
        (λ allowed.
          new_server_config b.sum256 b.load_key_pair s.cert_file s.key_file allowed ≡ some cfg)
        parsed made))

-- A server that is made with parsed fingerprints, and is started.
pub start-Admits :
    (b : Boot) (fps : List Bytes) (s : Server) (d : Disk) {s' : Server} {d' : Disk}
    → s.allowed_sender_fps ≡ parse_fingerprints fps
    → start b (s, d) ≡ (none, (s', d'))
    → Admits b.sum256 fps s'.listener
unfolding start
start-Admits b fps s d parsed e =
    subst (Ends b fps) e (after_cleanup-Ends b fps s (boot_cleanup b.make_dir b.stuck d) parsed)
