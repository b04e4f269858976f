-- ===== src/Peers/Certs/Accepted.antt =====
-- A peer that is configured with the fingerprint that GenerateCert of internal/tlsutil/certs.go
-- returns lets in that certificate, and no certificate with another digest.
use go_xport.Common.{
  split-same, ◌⊎◌, ℕ, ◌<◌, ◌/◌, ◌%◌, ◌≡◌, ◌≢◌, ◌↔◌, sym, subst, ap, ◌∙◌, List, [], ◌∷◌, some, Bytes,
  IsBytes, codes, hex, hex_digit, length, All, All-map, inl, inr, arith,
}
use go_xport.Monitor.Client.Targets.{digit-not_comma, digits-Spells}
use go_xport.Peers.{accepted, verify_peer_certificate, normalize_fingerprint}
use go_xport.Peers.Certs.{Crypto, CertFaults, Files, Outcome, fingerprint, failed, generate_cert}
use go_xport.Peers.Certs.RoundTrip.{generate_cert-IsGenerated}
use go_xport.Peers.Pinned.{IsPart, Pins, verify_peer_certificate_iff}
use go_xport.Peers.Spelling.{IsDigit, normalize_fingerprint-Spells}
use go_xport.Wire.Stream.{hash_size}

abbrev text_of : Outcome → Bytes
text_of (fingerprint fp) = fp
text_of (failed e) = []

hex_digit-IsDigit : (n : ℕ) → n < 16 → IsDigit (hex_digit n)
hex_digit-IsDigit n lt = ground arith

hex-digits : (b : Bytes) → IsBytes b → All IsDigit (hex b)
unfolding hex
hex-digits [] h = tt
hex-digits (b ∷ bs) (lt, h) = (
  hex_digit-IsDigit (b / 16) (omega arith),
  (hex_digit-IsDigit (b % 16) (omega arith), hex-digits bs h),
)

-- A text of hexadecimal digits configures itself alone.
Pins-digits : (fp other : Bytes) → All IsDigit fp → Pins (fp ∷ []) other ↔ (fp ≡ other)
Pins-digits fp other h =
    let spelt = normalize_fingerprint-Spells (digits-Spells fp h) in
    let cut : Pins (fp ∷ []) other ≡ (IsPart other (fp ∷ []) ⊎ ⊥) =
      ap (λ parts. IsPart other parts ⊎ ⊥) (split-same b',' fp (All-map fp digit-not_comma h)) in
    (λ p. own spelt (subst (λ T. T) cut p), λ e. subst (λ T. T) (sym cut) (inl (inl (spelt ∙ e))))
  where
    own : normalize_fingerprint fp ≡ fp → IsPart other (fp ∷ []) ⊎ ⊥ → fp ≡ other
    own spelt (inl (inl e)) = sym spelt ∙ e
    own spelt (inl (inr e)) = absurd e
    own spelt (inr e) = absurd e

-- If GenerateCert returns a fingerprint, the certificate file holds a certificate such that an
-- endpoint configured with that fingerprint lets in a peer exactly if the first certificate that it
-- presents has the same digest; so it lets in the peer that presents the generated one. The two
-- paths are different, and a digest has 32 bytes.
pub generate_cert-accepted :
    (sum256 : Bytes → Bytes)
    → ((b : Bytes) → length (sum256 b) ≡ hash_size)
    → ((b : Bytes) → IsBytes (sum256 b))
    → (k : Crypto) (f : CertFaults) (cert_path key_path : Bytes) → cert_path ≢ key_path
    → (name : Bytes) (days now : ℕ) (files : Files) (fp : Bytes)
    → (generate_cert sum256 k f cert_path key_path name days now files).0 ≡ fingerprint fp
    → (der : Bytes) × ((generate_cert sum256 k f cert_path key_path name days now files).1 cert_path
        ≡ some (k.pem_encode (codes "CERTIFICATE") der))
      × ((other : Bytes) (rest : List Bytes)
          → (verify_peer_certificate sum256 (fp ∷ []) (other ∷ rest) ≡ accepted)
            ↔ (hex (sum256 der) ≡ hex (sum256 other)))
generate_cert-accepted sum256 len bytes k f cert_path key_path apart name days now files fp e =
    let g =
      generate_cert-IsGenerated sum256 k f cert_path key_path apart name days now files fp e in
    let same : hex (sum256 g.der) ≡ fp = ap text_of (sym g.printed ∙ e) in
    let digits : All IsDigit fp =
      subst (All IsDigit) same (hex-digits (sum256 g.der) (bytes g.der)) in
    (
      g.der,
      g.stored,
      λ other rest.
          let checked = verify_peer_certificate_iff sum256 len (fp ∷ []) other rest in
          let pinned = Pins-digits fp (hex (sum256 other)) digits in
          (λ h. same ∙ pinned.0 (checked.0 h), λ h. checked.1 (pinned.1 (sym same ∙ h))),
    )
