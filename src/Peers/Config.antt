-- ===== src/Peers/Config.antt =====
-- NewServerTLSConfig and NewClientTLSConfig of internal/tlsutil/verify.go. Whether package `tls` can
-- load a key pair is an argument, with the certificate that it loads.
use go_xport.Common.{
  Bool, true, false, ◌||◌, List, [], ◌∷◌, Option, none, some, Bytes, equal, if◌then◌else◌,
}
use go_xport.Peers.{Verdict, verify_peer_certificate}

-- The fields that are set: the certificates presented, TLS 1.3 as the least version, whether the
-- peer must present a certificate (a client's peer always does), no check against authorities, and
-- the callback.
pub record TlsConfig : Type 0 where
  pub certificates : List Bytes
  pub tls13 : Bool
  pub client_auth : Bool
  pub skip_verify : Bool
  pub verify_peer : List Bytes → Verdict

abbrev pub one_cert : Option Bytes → Option (List Bytes)
one_cert none = none
one_cert (some cert) = some (cert ∷ [])

module _ (sum256 : Bytes → Bytes) (load_key_pair : Bytes → Bytes → Option Bytes) where
  abbrev pub server_config_of : Option Bytes → List Bytes → Option TlsConfig
  server_config_of none allowed = none
  server_config_of (some cert) allowed = some (record {
    certificates = cert ∷ [];
    tls13 = true;
    client_auth = true;
    skip_verify = true;
    verify_peer = verify_peer_certificate sum256 allowed;
  })

  unfoldable pub new_server_config : Bytes → Bytes → List Bytes → Option TlsConfig
  new_server_config cert_file key_file allowed =
      server_config_of (load_key_pair cert_file key_file) allowed

  -- A certificate is loaded if both files are named.
  abbrev pub client_certs : Bytes → Bytes → Option (List Bytes)
  client_certs cert_file key_file =
      if equal cert_file [] || equal key_file []
      then some []
      else one_cert (load_key_pair cert_file key_file)

  abbrev pub client_config_of : Option (List Bytes) → List Bytes → Option TlsConfig
  client_config_of none allowed = none
  client_config_of (some certs) allowed = some (record {
    certificates = certs;
    tls13 = true;
    client_auth = false;
    skip_verify = true;
    verify_peer = verify_peer_certificate sum256 allowed;
  })

  unfoldable pub new_client_config : Bytes → Bytes → List Bytes → Option TlsConfig
  new_client_config cert_file key_file allowed =
      client_config_of (client_certs cert_file key_file) allowed
