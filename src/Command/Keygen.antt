-- ===== src/Command/Keygen.antt =====
-- runKeygen of cmd/xport/main.go.
use go_xport.Common.{ℕ, ◌++◌, Bytes, codes}
use go_xport.Command.{Outcome, running, failed, keygen_failed}
use go_xport.Command.Flags.{KeygenFlags}
use go_xport.Peers.Certs
use go_xport.Peers.Certs.{Crypto, CertFaults, Files, generate_cert}

-- "%s.crt" and "%s.key"
abbrev pub cert_file : Bytes → Bytes
cert_file name = name ++ codes ".crt"

abbrev pub key_file : Bytes → Bytes
key_file name = name ++ codes ".key"

-- The fingerprint that is printed, and the files.
abbrev pub printed : Certs.Outcome × Files → Outcome Bytes × Files
printed (Certs.Outcome.fingerprint fp, files) = (running fp, files)
printed (Certs.Outcome.failed e, files) = (failed keygen_failed, files)

unfoldable pub run_keygen :
    (Bytes → Bytes) → Crypto → CertFaults → ℕ → KeygenFlags → Files → Outcome Bytes × Files
run_keygen sum256 k faults now f files =
    printed
      (generate_cert sum256 k faults (cert_file f.name) (key_file f.name) f.name f.days now files)
