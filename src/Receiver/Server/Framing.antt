-- ===== src/Receiver/Server/Framing.antt =====
-- What a handler of internal/receiver/listener.go has made of its message depends on its staged file
-- only.
use go_xport.Common.{◌≡◌, refl, sym, subst, ap, ◌∙◌, true, some, Bytes}
use mathlib.Core.Option.{some-injective}
use go_xport.Receiver.Disk.{Disk, FilePath}
use go_xport.Receiver.Server.Guarded.{owned, IsWork}
use go_xport.Receiver.Server.Handler.{
  Phase, Handler, gone, greeting, waiting, leaving, unlisted, subtracted, receiving, committing,
  placed, loaded,
}
use go_xport.Receiver.Stager.{staged_path, is_some}

module _ (sum256 : Bytes → Bytes) where
  -- A handler's staged file exists.
  pub owned-there :
      (d : Disk) (h : Handler) (phase : Phase) (p : FilePath)
      → IsWork sum256 d h phase
      → owned phase ≡ some p
      → is_some (d.live p) ≡ true
  owned-there d h (receiving name size staged) p (bytes, valid, within, path, there) e =
      subst (λ q. is_some (d.live q) ≡ true) (some-injective staged p e) there
  owned-there d h (committing name size staged) p (rest, valid, path, (content, file, within)) e =
      subst (λ q. is_some (d.live q) ≡ true) (some-injective staged p e) (rw file refl)
  owned-there d h gone p work e = absurd (cc)
  owned-there d h greeting p work e = absurd (cc)
  owned-there d h waiting p work e = absurd (cc)
  owned-there d h leaving p work e = absurd (cc)
  owned-there d h unlisted p work e = absurd (cc)
  owned-there d h subtracted p work e = absurd (cc)
  owned-there d h (placed name size) p work e = absurd (cc)
  owned-there d h (loaded count) p work e = absurd (cc)

  -- A change elsewhere on the disk leaves a handler's work in order.
  pub IsWork-frame :
      (d d' : Disk) (h : Handler) (phase : Phase)
      → ((rand : Bytes)
          → owned phase ≡ some (staged_path rand)
          → is_some (d.live (staged_path rand)) ≡ true
          → d'.live (staged_path rand) ≡ d.live (staged_path rand))
      → IsWork sum256 d h phase
      → IsWork sum256 d' h phase
  IsWork-frame d d' h (receiving name size staged) frame
        (bytes, valid, within, (rand, path), there) =
      let there' = subst (λ q. is_some (d.live q) ≡ true) path there in
      (bytes, valid, within, (rand, path), rw (path, frame rand (ap some path) there') there')
  IsWork-frame d d' h (committing name size staged) frame
        (rest, valid, (rand, path), (content, file, within)) =
      let there : is_some (d.live (staged_path rand)) ≡ true = rw (← path, file) refl in
      (
        rest,
        valid,
        (rand, path),
        (
          content,
          ap d'.live path ∙ frame rand (ap some path) there ∙ sym (ap d.live path) ∙ file,
          within,
        ),
      )
  IsWork-frame d d' h gone frame work = tt
  IsWork-frame d d' h greeting frame work = work
  IsWork-frame d d' h waiting frame work = work
  IsWork-frame d d' h leaving frame work = tt
  IsWork-frame d d' h unlisted frame work = tt
  IsWork-frame d d' h subtracted frame work = tt
  IsWork-frame d d' h (placed name size) frame work = work
  IsWork-frame d d' h (loaded count) frame work = tt
