-- ===== src/Receiver/Stager.antt =====
-- CreateStagedFile and BootCleanup of internal/receiver/stager.go. The random bytes are an argument.
pub mod Cleanup
use go_xport.Common.{
  hex, Bool, true, false, not, ◌&&◌, ◌||◌, [], ◌∷◌, ◌++◌, Option, none, some, Bytes, codes,
  if◌then◌else◌, has_suffix, equal,
}
use go_xport.Receiver.Disk.{Disk, FilePath, Faults, fill, staging_path}
use go_xport.Wire.Io.{Result, ok, err, staging, make_dir, random_bytes, open_file}

unfoldable pub staged_path : Bytes → FilePath
staged_path rand = staging_path (hex rand ++ codes ".tmp")

abbrev pub is_some {ℓ} : {A : Type ℓ} → Option A → Bool
is_some none = false
is_some (some a) = true

-- O_EXCL refuses a path where there is a file.
unfoldable pub create_staged_file : Faults → Bytes → Disk → Result FilePath × Disk
create_staged_file f rand d =
    let path = staged_path rand in
    if f.make_dir
    then (err (staging make_dir), d)
    else if f.random_bytes
    then (err (staging random_bytes), d)
    else if f.open_file || is_some (d.live path)
    then (err (staging open_file), d)
    else (ok path, fill path [] d)

-- A `.tmp` file at any depth below `.staging`.
abbrev pub ends_tmp : FilePath → Bool
ends_tmp [] = false
ends_tmp (name ∷ []) = has_suffix name (codes ".tmp")
ends_tmp (dir ∷ name ∷ rest) = ends_tmp (name ∷ rest)

abbrev pub is_lingering : FilePath → Bool
is_lingering [] = false
is_lingering (dir ∷ rest) = equal dir (codes ".staging") && ends_tmp rest

-- `stuck` are the files whose removal fails, which is ignored.
unfoldable pub boot_cleanup : Bool → (FilePath → Bool) → Disk → Result (Unit {0}) × Disk
boot_cleanup make_dir_fails stuck d = if make_dir_fails then (err (staging make_dir), d) else (
  ok tt,
  record d { live = λ p. if is_lingering p && not (stuck p) then none else d.live p },
)
