-- ===== src/Receiver/Stager/Cleanup.antt =====
-- What BootCleanup of internal/receiver/stager.go leaves behind.
use go_xport.Common.{
  ◌≡◌, refl, Bool, true, false, ◌&&◌, ◌++◌, Bytes, codes, hex, has_suffix, has_suffix_iff, equal,
}
use go_xport.Receiver.Disk.{Disk, FilePath, target_path}
use go_xport.Receiver.Stager.{staged_path, is_some, is_lingering, boot_cleanup}

staged-is_lingering : (rand : Bytes) → is_lingering (staged_path rand) ≡ true
unfolding staged_path equal has_suffix
staged-is_lingering rand =
    (has_suffix_iff (hex rand ++ codes ".tmp") (codes ".tmp")).1 (hex rand, refl)

and-false : (b : Bool) → b && false ≡ false
and-false true = refl
and-false false = refl

-- After BootCleanup no name that CreateStagedFile can draw is taken, but for files that could not be
-- removed; the files of the incoming directory itself, and what a crash would leave, are as before.
pub boot_cleanup-fresh :
    (stuck : FilePath → Bool) (d : Disk)
    → ((rand : Bytes)
        → stuck (staged_path rand) ≡ false
        → is_some ((boot_cleanup false stuck d).1.live (staged_path rand)) ≡ false)
      × ((name : Bytes)
          → (boot_cleanup false stuck d).1.live (target_path name) ≡ d.live (target_path name))
      × ((boot_cleanup false stuck d).1.stable ≡ d.stable)
unfolding boot_cleanup
boot_cleanup-fresh stuck d = (
  λ rand free. rw (staged-is_lingering rand, free) refl,
  λ name. rw (and-false (equal name (codes ".staging"))) refl,
  refl,
)
