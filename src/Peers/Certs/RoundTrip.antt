-- ===== src/Peers/Certs/RoundTrip.antt =====
-- The fingerprint that GenerateCert of internal/tlsutil/certs.go returns, the certificate that it
-- writes, and the peer that presents it.
use go_xport.Common.{
  ℕ, ◌≡◌, ◌≢◌, refl, sym, ap, ◌∙◌, false, Option, none, some, Bytes, codes, equal, equal_refl,
  equal_iff, hex, Bool-cases, inl, inr,
}
use go_xport.Peers.{fingerprint_der}
use go_xport.Peers.Certs.{
  Crypto, Files, CertFaults, write_pem, Outcome, fingerprint, after_key_write, write_key_pem,
  after_cert_write, write_cert_pem, with_serial, with_key, generate_cert, load_cert_fingerprint,
  of_data, of_block,
}

-- What GenerateCert leaves if it returns a fingerprint: the certificate file has the PEM text of a
-- certificate of which it is the digest.
pub record IsGenerated (sum256 : Bytes → Bytes) (k : Crypto) (cert_path : Bytes)
    (o : Outcome × Files) : Type 0 where
  pub der : Bytes
  pub printed : o.0 ≡ fingerprint (hex (sum256 der))
  pub stored : o.1 cert_path ≡ some (k.pem_encode (codes "CERTIFICATE") der)

module _ (sum256 : Bytes → Bytes) (k : Crypto) (f : CertFaults) (cert_path key_path : Bytes)
    (apart : cert_path ≢ key_path) where
  abbrev Good : Outcome × Files → Type 0
  Good o = (fp : Bytes) → o.0 ≡ fingerprint fp → IsGenerated sum256 k cert_path o

  cert_ne_key : equal cert_path key_path ≡ false
  cert_ne_key = elim (Bool-cases (equal cert_path key_path)) [
    | inl e ↦ absurd (apart ((equal_iff cert_path key_path).0 e))
    | inr e ↦ e
  ]

  after_key_write-Good :
      (der text : Bytes) (w : Option ℕ) (files : Files)
      → files cert_path ≡ some (k.pem_encode (codes "CERTIFICATE") der)
      → Good (after_key_write sum256 k f cert_path key_path der (write_pem w key_path text files))
  unfolding fingerprint_der
  after_key_write-Good der text none files stored fp e = record {
    der = der;
    printed = refl;
    stored = rw cert_ne_key stored;
  }
  after_key_write-Good der text (some n) files stored fp e = absurd (cc)

  write_key_pem-Good :
      (der : Bytes) (o : Option Bytes) (files : Files)
      → files cert_path ≡ some (k.pem_encode (codes "CERTIFICATE") der)
      → Good (write_key_pem sum256 k f cert_path key_path der o files)
  write_key_pem-Good der none files stored = λ fp e. absurd (cc)
  write_key_pem-Good der (some key_bytes) files stored = elim (Bool-cases f.open_key) [
    | inl o ↦ rw o (λ fp e. absurd (cc))
    | inr o ↦ rw o (
        after_key_write-Good der (k.pem_encode (codes "EC PRIVATE KEY") key_bytes) f.write_key files
          stored)
  ]

  after_cert_write-Good :
      (key der : Bytes) (w : Option ℕ) (files : Files)
      → Good (
          after_cert_write sum256 k f cert_path key_path key der
            (write_pem w cert_path (k.pem_encode (codes "CERTIFICATE") der) files))
  after_cert_write-Good key der none files =
      write_key_pem-Good der (k.marshal_key key) _ (rw (equal_refl cert_path) refl)
  after_cert_write-Good key der (some n) files = λ fp e. absurd (cc)

  write_cert_pem-Good :
      (key : Bytes) (o : Option Bytes) (files : Files)
      → Good (write_cert_pem sum256 k f cert_path key_path key o files)
  write_cert_pem-Good key none files = λ fp e. absurd (cc)
  write_cert_pem-Good key (some der) files = elim (Bool-cases f.open_cert) [
    | inl o ↦ rw o (λ fp e. absurd (cc))
    | inr o ↦ rw o (after_cert_write-Good key der f.write_cert files)
  ]

  with_serial-Good :
      (name : Bytes) (days now : ℕ) (key : Bytes) (o : Option ℕ) (files : Files)
      → Good (with_serial sum256 k f cert_path key_path name days now key o files)
  with_serial-Good name days now key none files = λ fp e. absurd (cc)
  with_serial-Good name days now key (some serial) files = write_cert_pem-Good key _ files

  with_key-Good :
      (name : Bytes) (days now : ℕ) (o : Option Bytes) (files : Files)
      → Good (with_key sum256 k f cert_path key_path name days now o files)
  with_key-Good name days now none files = λ fp e. absurd (cc)
  with_key-Good name days now (some key) files =
      with_serial-Good name days now key k.serial_number files

  pub generate_cert-IsGenerated :
      (name : Bytes) (days now : ℕ) (files : Files) (fp : Bytes)
      → (generate_cert sum256 k f cert_path key_path name days now files).0 ≡ fingerprint fp
      → IsGenerated sum256 k cert_path
          (generate_cert sum256 k f cert_path key_path name days now files)
  unfolding generate_cert
  generate_cert-IsGenerated name days now files = with_key-Good name days now k.generate_key files

  -- If GenerateCert returns a fingerprint, LoadCertFingerprint reads the same one from the file that
  -- it has written, whatever was there before. The two paths are different, and PEM text decodes to
  -- what it was encoded from.
  pub generate_cert-load_cert_fingerprint :
      ((kind body : Bytes) → k.pem_decode (k.pem_encode kind body) ≡ some (kind, body))
      → (name : Bytes) (days now : ℕ) (files : Files) (fp : Bytes)
      → (generate_cert sum256 k f cert_path key_path name days now files).0 ≡ fingerprint fp
      → load_cert_fingerprint sum256 k.pem_decode cert_path
          (generate_cert sum256 k f cert_path key_path name days now files).1
        ≡ fingerprint fp
  unfolding load_cert_fingerprint fingerprint_der
  generate_cert-load_cert_fingerprint law name days now files fp e =
      let g = generate_cert-IsGenerated name days now files fp e in
      ap (of_data sum256 k.pem_decode) g.stored
      ∙ ap (of_block sum256 k.pem_decode) (law (codes "CERTIFICATE") g.der)
      ∙ rw (equal_refl (codes "CERTIFICATE")) (sym g.printed ∙ e)
