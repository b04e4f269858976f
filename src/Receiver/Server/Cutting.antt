-- ===== src/Receiver/Server/Cutting.antt =====
-- A connection of internal/receiver/listener.go that is cut: what is still to be read ends early.
use go_xport.Common.{ℕ, ◌≡◌, sym, subst, [], ◌++◌, Bytes, IsBytes, take}
use go_xport.Receiver.Disk.{Disk}
use go_xport.Receiver.Server.Handler.{
  Phase, Handler, gone, greeting, waiting, leaving, unlisted, subtracted, receiving, committing,
  placed, loaded,
}
use go_xport.Receiver.Server.Parts.{Within, Within-take, take-IsBytes}
use go_xport.Wire.Header.{header_bytes}
use go_xport.Wire.Io.{Source, Sink}
use go_xport.Receiver.Server.Guarded.{IsRest, IsWork}

cut-IsRest :
    (left : ℕ) (h : Handler) (src : Source) (dst : Sink)
    → src.input ≡ take left h.src.input
    → IsRest h
    → IsRest (record h { src = src; dst = dst })
cut-IsRest left h src dst e (bytes, within) = (
  subst IsBytes (sym e) (take-IsBytes left h.src.input bytes),
  subst (λ b. Within b h.sent) (sym e) (Within-take left h.sent [] h.src.input within),
)

-- A connection that is cut.
pub cut-IsWork :
    (sum256 : Bytes → Bytes) (left : ℕ) (d : Disk) (h : Handler) (src : Source) (dst : Sink)
    → src.input ≡ take left h.src.input
    → (phase : Phase) → IsWork sum256 d h phase
    → IsWork sum256 d (record h { src = src; dst = dst }) phase
cut-IsWork sum256 left d h src dst e greeting work = cut-IsRest left h src dst e work
cut-IsWork sum256 left d h src dst e waiting work = cut-IsRest left h src dst e work
cut-IsWork sum256 left d h src dst e (receiving name size staged)
      (bytes, valid, within, path, there) =
    (
      subst IsBytes (sym e) (take-IsBytes left h.src.input bytes),
      valid,
      subst (λ b. Within (header_bytes name size ++ b) h.sent) (sym e)
          (Within-take left h.sent (header_bytes name size) h.src.input within),
      path,
      there,
    )
cut-IsWork sum256 left d h src dst e (committing name size staged) (rest, valid, path, file) =
    (cut-IsRest left h src dst e rest, valid, path, file)
cut-IsWork sum256 left d h src dst e (placed name size) work = cut-IsRest left h src dst e work
cut-IsWork sum256 left d h src dst e gone work = tt
cut-IsWork sum256 left d h src dst e leaving work = tt
cut-IsWork sum256 left d h src dst e unlisted work = tt
cut-IsWork sum256 left d h src dst e subtracted work = tt
cut-IsWork sum256 left d h src dst e (loaded count) work = tt
