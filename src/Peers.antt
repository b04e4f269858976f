-- ===== src/Peers.antt =====
-- internal/tlsutil/verify.go, and FingerprintDER of internal/tlsutil/certs.go: which peers a TLS
-- endpoint lets in. Fingerprints are ASCII text.
pub mod Normal
pub mod Pinned
pub mod Spelling
pub mod Config
pub mod Trust
pub mod Certs
use go_xport.Common.{
  Bool, false, ◌||◌, List, [], ◌∷◌, ◌++◌, Bytes, equal, hex, remove_byte, to_lower, trim_space,
  split, if◌then◌else◌,
}

pub data PeerError : Type 0 where
  no_peer_cert no_allowed_peers : PeerError
  not_pinned : Bytes → PeerError

pub data Verdict : Type 0 where
  accepted : Verdict
  refused : PeerError → Verdict

unfoldable pub normalize_fingerprint : Bytes → Bytes
normalize_fingerprint fp = to_lower (trim_space (remove_byte b' ' (remove_byte b':' fp)))

abbrev pub keep : Bytes → List Bytes → List Bytes
keep [] rest = rest
keep (c ∷ cs) rest = (c ∷ cs) ∷ rest

-- The parts of one item, normalised, without the empty ones.
unfoldable pub parse_parts : List Bytes → List Bytes
parse_parts [] = []
parse_parts (part ∷ parts) = keep (normalize_fingerprint part) (parse_parts parts)

unfoldable pub parse_fingerprints : List Bytes → List Bytes
parse_fingerprints [] = []
parse_fingerprints (item ∷ items) = parse_parts (split b',' item) ++ parse_fingerprints items

-- `subtle.ConstantTimeCompare` is 1 for equal texts only.
unfoldable pub is_matched : Bytes → List Bytes → Bool
is_matched peer_fp [] = false
is_matched peer_fp (allowed ∷ rest) = equal peer_fp allowed || is_matched peer_fp rest

module _ (sum256 : Bytes → Bytes) where
  unfoldable pub fingerprint_der : Bytes → Bytes
  fingerprint_der der = hex (sum256 der)

  -- The callback, past its first test.
  unfoldable pub verify_der : Bytes → List Bytes → Verdict
  verify_der der [] = refused no_allowed_peers
  verify_der der (allowed ∷ rest) =
      let peer_fp = fingerprint_der der in
      if is_matched peer_fp (allowed ∷ rest) then accepted else refused (not_pinned peer_fp)

  unfoldable pub verify_peer_certificate : List Bytes → List Bytes → Verdict
  verify_peer_certificate allowed_fingerprints [] = refused no_peer_cert
  verify_peer_certificate allowed_fingerprints (der ∷ rest) =
      verify_der der (parse_fingerprints allowed_fingerprints)
