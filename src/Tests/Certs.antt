-- ===== src/Tests/Certs.antt =====
-- Generated certificates at concrete inputs.
use go_xport.Common.{
  ℕ, ◌%◌, ◌≡◌, ◌≢◌, ◌↔◌, refl, false, List, [], ◌∷◌, Option, none, some, Bytes, IsBytes, codes, hex,
  equal, equal_iff, length, replicate, arith, ◌++◌, take, drop, take-append, drop-append, zero, suc,
  ◌<◌,
}
use go_xport.Peers.{accepted, fingerprint_der, verify_peer_certificate}
use go_xport.Peers.Certs.{Crypto, CertFaults, Files, fingerprint, template_of, generate_cert}
use go_xport.Peers.Certs.Accepted.{generate_cert-accepted}
use go_xport.Tests.Data.{toy_sum, length-toy_sum}

-- The kind's length, the kind and the body, in place of PEM.
abbrev encode : Bytes → Bytes → Bytes
encode kind body = length kind ∷ (kind ++ body)

abbrev decode : Bytes → Option (Bytes × Bytes)
decode [] = none
decode (n ∷ rest) = some (take n rest, drop n rest)

decode-encode : (kind body : Bytes) → decode (encode kind body) ≡ some (kind, body)
decode-encode kind body = rw (take-append kind body, drop-append kind body) refl

abbrev crypto : Crypto
crypto = record {
  generate_key = some (3 ∷ []);
  serial_number = some 5;
  create_certificate = λ t key. some (t.serial_number ∷ key);
  marshal_key = λ key. some key;
  pem_encode = encode;
  pem_decode = decode;
}

abbrev no_faults : CertFaults
no_faults = record { open_cert = false; write_cert = none; open_key = false; write_key = none }

abbrev no_files : Files
no_files path = none

abbrev crt : Bytes
crt = codes "n.crt"

abbrev key : Bytes
key = codes "n.key"

crt-ne-key : crt ≢ key
unfolding equal
crt-ne-key e = let same = (equal_iff crt key).1 e in absurd (cc)

abbrev fp : Bytes
fp = hex (toy_sum (5 ∷ 3 ∷ []))

generated :
    (generate_cert toy_sum crypto no_faults crt key (codes "n") 0 9000 no_files).0 ≡ fingerprint fp
unfolding generate_cert template_of fingerprint_der
generated = refl

all_same : (n b : ℕ) → b < 256 → IsBytes (replicate n b)
all_same zero b lt = tt
all_same (suc n) b lt = (lt, all_same n b lt)

toy_sum-IsBytes : (b : Bytes) → IsBytes (toy_sum b)
toy_sum-IsBytes b = all_same 32 (length b % 256) (omega arith)

generate_cert-accepted_example :
    (der : Bytes) × ((generate_cert toy_sum crypto no_faults crt key (codes "n") 0 9000 no_files).1
        crt
      ≡ some (encode (codes "CERTIFICATE") der))
    × ((other : Bytes) (rest : List Bytes)
        → (verify_peer_certificate toy_sum (fp ∷ []) (other ∷ rest) ≡ accepted)
          ↔ (hex (toy_sum der) ≡ hex (toy_sum other)))
generate_cert-accepted_example =
    generate_cert-accepted toy_sum length-toy_sum toy_sum-IsBytes crypto no_faults crt key
      crt-ne-key (codes "n") 0 9000 no_files fp generated
