-- ===== src/Peers/Trust.antt =====
-- Whom an endpoint lets in that is configured by NewClientTLSConfig or NewServerTLSConfig of
-- internal/tlsutil/verify.go.
use go_xport.Common.{
  subst, ◌≡◌, refl, sym, ap, ◌∙◌, true, List, [], ◌∷◌, Option, none, some, Bytes, hex, length,
}
use mathlib.Core.Option.{some-injective}
use go_xport.Peers.{accepted, Verdict, parse_fingerprints, verify_der, verify_peer_certificate}
use go_xport.Peers.Config.{
  TlsConfig, client_certs, client_config_of, new_client_config, server_config_of, new_server_config,
}
use go_xport.Peers.Normal.{parse_fingerprints-parse_fingerprints}
use go_xport.Peers.Pinned.{Pins, verify_peer_certificate_iff}
use go_xport.Wire.Stream.{hash_size}

-- The first of the certificates has one of the fingerprints.
abbrev pub Shows : (Bytes → Bytes) → List Bytes → List Bytes → Type 0
Shows sum256 allowed certs =
    (der : Bytes) × (rest : List Bytes) × (certs ≡ der ∷ rest) × Pins allowed (hex (sum256 der))

verify_peer_certificate-parsed :
    (sum256 : Bytes → Bytes) (allowed certs : List Bytes)
    → verify_peer_certificate sum256 (parse_fingerprints allowed) certs
      ≡ verify_peer_certificate sum256 allowed certs
unfolding verify_peer_certificate
verify_peer_certificate-parsed sum256 allowed [] = refl
verify_peer_certificate-parsed sum256 allowed (der ∷ rest) =
    ap (verify_der sum256 der) (parse_fingerprints-parse_fingerprints allowed)

-- TLS 1.3, with a certificate of the peer, which has one of the fingerprints.
pub record IsPinned (sum256 : Bytes → Bytes) (allowed : List Bytes) (cfg : TlsConfig) : Type 0 where
  pub tls13 : cfg.tls13 ≡ true
  pub client_auth : cfg.client_auth ≡ true
  pub verify_peer :
      (certs : List Bytes) → cfg.verify_peer certs ≡ verify_peer_certificate sum256 allowed certs

server_config_of-IsPinned :
    (sum256 : Bytes → Bytes) (load_key_pair : Bytes → Bytes → Option Bytes) (o : Option Bytes)
    (allowed : List Bytes) (cfg : TlsConfig)
    → server_config_of sum256 load_key_pair o (parse_fingerprints allowed) ≡ some cfg
    → IsPinned sum256 allowed cfg
server_config_of-IsPinned sum256 load_key_pair none allowed cfg e = absurd (cc)
server_config_of-IsPinned sum256 load_key_pair (some cert) allowed cfg e =
    subst (IsPinned sum256 allowed) (some-injective _ cfg e) (record {
      tls13 = refl;
      client_auth = refl;
      verify_peer = verify_peer_certificate-parsed sum256 allowed;
    })

-- Whom a server lets in that is configured with parsed fingerprints.
pub new_server_config-IsPinned :
    (sum256 : Bytes → Bytes) (load_key_pair : Bytes → Bytes → Option Bytes)
    (cert_file key_file : Bytes) (allowed : List Bytes) (cfg : TlsConfig)
    → new_server_config sum256 load_key_pair cert_file key_file (parse_fingerprints allowed)
      ≡ some cfg
    → IsPinned sum256 allowed cfg
unfolding new_server_config
new_server_config-IsPinned sum256 load_key_pair cert_file key_file allowed cfg e =
    server_config_of-IsPinned sum256 load_key_pair (load_key_pair cert_file key_file) allowed cfg e

client_config_of-verifies :
    (sum256 : Bytes → Bytes) (load_key_pair : Bytes → Bytes → Option Bytes)
    (o : Option (List Bytes)) (allowed : List Bytes) (cfg : TlsConfig)
    → client_config_of sum256 load_key_pair o allowed ≡ some cfg
    → (cfg.tls13 ≡ true) × (cfg.verify_peer ≡ verify_peer_certificate sum256 allowed)
client_config_of-verifies sum256 load_key_pair none allowed cfg e = absurd (cc)
client_config_of-verifies sum256 load_key_pair (some certs) allowed cfg e =
    let same = some-injective _ cfg e in
    (ap (λ (c : TlsConfig). c.tls13) (sym same), ap (λ (c : TlsConfig). c.verify_peer) (sym same))

-- What a client's configuration is.
new_client_config-verifies :
    (sum256 : Bytes → Bytes) (load_key_pair : Bytes → Bytes → Option Bytes)
    (cert_file key_file : Bytes) (allowed : List Bytes) (cfg : TlsConfig)
    → new_client_config sum256 load_key_pair cert_file key_file allowed ≡ some cfg
    → (cfg.tls13 ≡ true) × (cfg.verify_peer ≡ verify_peer_certificate sum256 allowed)
unfolding new_client_config
new_client_config-verifies sum256 load_key_pair cert_file key_file allowed cfg made =
    client_config_of-verifies sum256 load_key_pair
      (client_certs sum256 load_key_pair cert_file key_file) allowed cfg made

-- The same for fingerprints that have been parsed before.
pub new_client_config-parsed :
    (sum256 : Bytes → Bytes) (load_key_pair : Bytes → Bytes → Option Bytes)
    (cert_file key_file : Bytes) (allowed : List Bytes) (cfg : TlsConfig)
    → new_client_config sum256 load_key_pair cert_file key_file (parse_fingerprints allowed)
      ≡ some cfg
    → (cfg.tls13 ≡ true)
      × ((certs : List Bytes)
          → cfg.verify_peer certs ≡ verify_peer_certificate sum256 allowed certs)
new_client_config-parsed sum256 load_key_pair cert_file key_file allowed cfg made =
    let (tls13, verifies) =
      new_client_config-verifies sum256 load_key_pair cert_file key_file
        (parse_fingerprints allowed) cfg made in
    (
      tls13,
      λ certs.
          ap (λ (f : List Bytes → Verdict). f certs) verifies
          ∙ verify_peer_certificate-parsed sum256 allowed certs,
    )

module _ (sum256 : Bytes → Bytes)
    (length-sum256 : (b : Bytes) → length (sum256 b) ≡ hash_size) where
  pub accepted-Shows :
      (allowed certs : List Bytes)
      → verify_peer_certificate sum256 allowed certs ≡ accepted
      → Shows sum256 allowed certs
  unfolding verify_peer_certificate
  accepted-Shows allowed [] h = absurd (cc)
  accepted-Shows allowed (der ∷ rest) h =
      (der, rest, refl, (verify_peer_certificate_iff sum256 length-sum256 allowed der rest).0 h)

  -- A server that the configuration's callback lets in.
  pub new_client_config-Shows :
      (load_key_pair : Bytes → Bytes → Option Bytes) (cert_file key_file : Bytes)
      (allowed certs : List Bytes) (cfg : TlsConfig)
      → new_client_config sum256 load_key_pair cert_file key_file allowed ≡ some cfg
      → cfg.verify_peer certs ≡ accepted
      → Shows sum256 allowed certs
  new_client_config-Shows load_key_pair cert_file key_file allowed certs cfg made let_in =
      let verifies =
        new_client_config-verifies sum256 load_key_pair cert_file key_file allowed cfg made in
      accepted-Shows allowed certs
        (ap (λ (f : List Bytes → Verdict). f certs) (sym verifies.1) ∙ let_in)
