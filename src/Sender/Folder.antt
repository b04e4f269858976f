-- ===== src/Sender/Folder.antt =====
-- The watched directory, as far as internal/sender moves files in it: the paths of its regular files.
pub mod Keeps
use go_xport.Common.{
  ℕ, suc, Bool, true, false, not, ◌||◌, List, [], ◌∷◌, Bytes, codes, equal, if◌then◌else◌, any,
}
use go_xport.Receiver.Disk.{FilePath, same_path}

abbrev pub Folder : Type 0
Folder = List FilePath

abbrev pub holds : FilePath → Folder → Bool
holds p folder = any (same_path p) folder

abbrev pub without : FilePath → Folder → Folder
without p [] = []
without p (q ∷ qs) = let rest = without p qs in if same_path p q then rest else q ∷ rest

-- Which calls of the operating system fail.
pub record FolderFaults : Type 0 where
  pub make_dir : Bool
  pub rename_file : Bool
  pub remove_file : Bool
  pub read_dir : Bool

-- `os.Rename`; a file with the new name is replaced. The Boolean is whether it succeeded.
unfoldable pub rename : Bool → FilePath → FilePath → Folder → Bool × Folder
rename fails p q folder =
    if fails || not (holds p folder)
    then (false, folder)
    else (true, q ∷ without q (without p folder))

-- `os.Remove`
unfoldable pub remove : Bool → FilePath → Folder → Bool × Folder
remove fails p folder =
    if fails || not (holds p folder) then (false, folder) else (true, without p folder)

abbrev pub failed_path : Bytes → FilePath
failed_path filename = codes ".failed" ∷ filename ∷ []

abbrev pub sent_path : Bytes → FilePath
sent_path filename = codes ".sent" ∷ filename ∷ []

-- A file directly in `.failed`.
abbrev pub is_parked : FilePath → Bool
is_parked (dir ∷ name ∷ []) = equal dir (codes ".failed")
is_parked _ = false

unfoldable pub count_parked : Folder → ℕ
count_parked [] = 0
count_parked (p ∷ ps) = let n = count_parked ps in if is_parked p then suc n else n
