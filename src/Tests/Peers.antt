-- ===== src/Tests/Peers.antt =====
-- Pinned fingerprints at concrete inputs.
use go_xport.Common.{◌≡◌, ◌↔◌, refl, inl, inr, [], ◌∷◌, Bytes, List, codes, hex, arith}
use go_xport.Peers.{accepted, verify_peer_certificate}
use go_xport.Peers.Pinned.{Pins, verify_peer_certificate_iff}
use go_xport.Peers.Spelling.{Spells}
use go_xport.Tests.Data.{toy_sum, length-toy_sum, content}

abbrev allowed : List Bytes
allowed = codes "0a, 02" ∷ []

verify_peer_certificate_iff_example :
    (verify_peer_certificate toy_sum allowed (content ∷ []) ≡ accepted)
    ↔ Pins allowed (hex (toy_sum content))
verify_peer_certificate_iff_example =
    verify_peer_certificate_iff toy_sum length-toy_sum allowed content []

spelt : Spells (codes "0A: 2") (codes "0a2")
spelt = Spells.digit refl (inl (omega arith, omega arith)) (
    Spells.digit refl (inr (omega arith, omega arith)) (
      Spells.separator (inl refl) (
        Spells.separator (inr refl)
          (Spells.digit refl (inl (omega arith, omega arith)) Spells.done))))
