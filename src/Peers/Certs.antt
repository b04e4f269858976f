-- ===== src/Peers/Certs.antt =====
-- GenerateCert and LoadCertFingerprint of internal/tlsutil/certs.go. What packages `crypto/ecdsa`,
-- `crypto/rand`, `crypto/x509` and `encoding/pem` compute is an argument. Keys and certificates are
-- bytes, times nanoseconds since 1970, where an earlier time is 0, and a number of days that is not
-- positive is 0.
pub mod RoundTrip
pub mod Accepted
use go_xport.Common.{
  ltb, ◌%◌, ◌^◌, ℕ, ◌-◌, ◌+◌, ◌*◌, ◌==◌, Bool, true, false, List, [], ◌∷◌, Option, none, some,
  Bytes, codes, equal, take, if◌then◌else◌,
}
use go_xport.Peers.{fingerprint_der}

-- The fields of the template that depend on the arguments; the others are constants: the key
-- usages, the organization "xport", the addresses 127.0.0.1 and ::1, and no CA.
pub record Template : Type 0 where
  pub serial_number : ℕ
  pub common_name : Bytes
  pub not_before : ℕ
  pub not_after : ℕ
  pub dns_names : List Bytes

pub record Crypto : Type 0 where
  pub generate_key : Option Bytes
  pub serial_number : Option ℕ
  pub create_certificate : Template → Bytes → Option Bytes
  pub marshal_key : Bytes → Option Bytes
  pub pem_encode : Bytes → Bytes → Bytes
  pub pem_decode : Bytes → Option (Bytes × Bytes)

-- The files by their paths.
abbrev pub Files : Type 0
Files = Bytes → Option Bytes

abbrev pub put_file : Bytes → Bytes → Files → Files
put_file path content files p = if equal p path then some content else files p

-- Which file cannot be opened, and which write fails, after how many bytes.
pub record CertFaults : Type 0 where
  pub open_cert : Bool
  pub write_cert : Option ℕ
  pub open_key : Bool
  pub write_key : Option ℕ

pub data CertError : Type 0 where
  key_failed serial_failed create_failed open_cert_failed write_cert_failed : CertError
  marshal_failed open_key_failed write_key_failed : CertError
  read_failed not_pem : CertError

pub data Outcome : Type 0 where
  fingerprint : Bytes → Outcome
  failed : CertError → Outcome

-- The file is opened with O_TRUNC, and PEM text is written to it. The Boolean is whether all is.
abbrev pub write_pem : Option ℕ → Bytes → Bytes → Files → Bool × Files
write_pem none path text files = (true, put_file path text files)
write_pem (some n) path text files = (false, put_file path (take n text) files)

abbrev pub hour : ℕ
hour = 3600 * 1_000_000_000

-- `time.Duration(days) * 24 * time.Hour`, in 64 bits.
abbrev pub days_duration : ℕ → ℕ
days_duration days = (days * 24 * hour) % 2 ^ 64

-- `t.Add(d)`, where the 64 bits of `d` may stand for a negative number.
abbrev pub add_duration : ℕ → ℕ → ℕ
add_duration t d = if ltb d (2 ^ 63) then t + d else t + d - 2 ^ 64

unfoldable pub template_of : Bytes → ℕ → ℕ → ℕ → Template
template_of name days now serial_number =
    let not_before = now - hour in
    record {
      serial_number = serial_number;
      common_name = name;
      not_before = not_before;
      not_after = add_duration not_before (days_duration (if days == 0 then 3650 else days));
      dns_names = codes "localhost" ∷ name ∷ [];
    }

module _ (sum256 : Bytes → Bytes) (k : Crypto) (f : CertFaults) (cert_path key_path : Bytes) where
  abbrev pub after_key_write : Bytes → Bool × Files → Outcome × Files
  after_key_write der (written, files) =
      if written
      then (fingerprint (fingerprint_der sum256 der), files)
      else (failed write_key_failed, files)

  abbrev pub write_key_pem : Bytes → Option Bytes → Files → Outcome × Files
  write_key_pem der none files = (failed marshal_failed, files)
  write_key_pem der (some key_bytes) files =
      if f.open_key
      then (failed open_key_failed, files)
      else after_key_write der
          (write_pem f.write_key key_path (k.pem_encode (codes "EC PRIVATE KEY") key_bytes) files)

  abbrev pub after_cert_write : Bytes → Bytes → Bool × Files → Outcome × Files
  after_cert_write key der (written, files) =
      let rest = write_key_pem der (k.marshal_key key) files in
      if written then rest else (failed write_cert_failed, files)

  abbrev pub write_cert_pem : Bytes → Option Bytes → Files → Outcome × Files
  write_cert_pem key none files = (failed create_failed, files)
  write_cert_pem key (some der) files =
      if f.open_cert
      then (failed open_cert_failed, files)
      else after_cert_write key der
          (write_pem f.write_cert cert_path (k.pem_encode (codes "CERTIFICATE") der) files)

  abbrev pub with_serial : Bytes → ℕ → ℕ → Bytes → Option ℕ → Files → Outcome × Files
  with_serial name days now key none files = (failed serial_failed, files)
  with_serial name days now key (some serial) files =
      write_cert_pem key (k.create_certificate (template_of name days now serial) key) files

  abbrev pub with_key : Bytes → ℕ → ℕ → Option Bytes → Files → Outcome × Files
  with_key name days now none files = (failed key_failed, files)
  with_key name days now (some key) files = with_serial name days now key k.serial_number files

  unfoldable pub generate_cert : Bytes → ℕ → ℕ → Files → Outcome × Files
  generate_cert name days now files = with_key name days now k.generate_key files

module _ (sum256 : Bytes → Bytes) (pem_decode : Bytes → Option (Bytes × Bytes)) where
  abbrev pub of_block : Option (Bytes × Bytes) → Outcome
  of_block none = failed not_pem
  of_block (some (kind, body)) =
      if equal kind (codes "CERTIFICATE")
      then fingerprint (fingerprint_der sum256 body)
      else failed not_pem

  abbrev pub of_data : Option Bytes → Outcome
  of_data none = failed read_failed
  of_data (some text) = of_block (pem_decode text)

  unfoldable pub load_cert_fingerprint : Bytes → Files → Outcome
  load_cert_fingerprint cert_path files = of_data (files cert_path)
