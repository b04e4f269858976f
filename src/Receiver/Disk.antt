-- ===== src/Receiver/Disk.antt =====
-- What internal/receiver uses of package `os`: the files below the incoming directory, by the
-- components of their path, as they are now and as a crash would leave them.
use go_xport.Common.{
  ℕ, ◌≡◌, ◌↔◌, refl, Bool, true, false, ◌&&◌, [], ◌∷◌, List, Option, none, some, Bytes, ◌==◌,
  if◌then◌else◌, length, equal, equal_iff, &&-eq-true, codes,
}

abbrev pub FilePath : Type 0
FilePath = List Bytes

unfoldable pub same_path : FilePath → FilePath → Bool
same_path [] [] = true
same_path (x ∷ xs) (y ∷ ys) = equal x y && same_path xs ys
same_path _ _ = false

pub same_path_iff : (p q : FilePath) → (same_path p q ≡ true) ↔ (p ≡ q)
unfolding same_path
same_path_iff [] [] = (λ _. refl, λ _. refl)
same_path_iff [] (y ∷ ys) = (λ h. cc, λ h. cc)
same_path_iff (x ∷ xs) [] = (λ h. cc, λ h. cc)
same_path_iff (x ∷ xs) (y ∷ ys) = (
  λ h.
      let (a, b) = (&&-eq-true (equal x y) (same_path xs ys)).0 h in
      cc ((equal_iff x y).0 a, (same_path_iff xs ys).0 b),
  λ e.
      (&&-eq-true (equal x y) (same_path xs ys)).1
        ((equal_iff x y).1 (cc), (same_path_iff xs ys).1 (cc)),
)

pub same_path_refl : (p : FilePath) → same_path p p ≡ true
same_path_refl p = (same_path_iff p p).1 refl

-- `flushed` after `File.Sync`, until the next write.
pub record File : Type 0 where
  pub content : Bytes
  pub flushed : Bool

-- `stable` is what a crash leaves of the directories' entries.
pub record Disk : Type 0 where
  pub live : FilePath → Option File
  pub stable : FilePath → Option File

abbrev pub update : (FilePath → Option File) → FilePath → Option File → FilePath → Option File
update files p file q = if same_path p q then file else files q

abbrev pub flush : Option File → Option File
flush none = none
flush (some file) = some (record file { flushed = true })

-- `file.Sync()` on the file at `p`
abbrev pub sync_file : FilePath → Disk → Disk
sync_file p d = record d { live = update d.live p (flush (d.live p)) }

-- The writes to the file at `p` that follow its creation.
abbrev pub fill : FilePath → Bytes → Disk → Disk
fill p content d = record d {
  live = update d.live p (some (record { content = content; flushed = false }));
}

-- `os.Remove(p)` that succeeds
abbrev pub remove : FilePath → Disk → Disk
remove p d = record d { live = update d.live p none }

-- `os.Rename(p, q)` that succeeds: the file at `q`, if any, is replaced
abbrev pub rename : FilePath → FilePath → Disk → Disk
rename p q d = record d { live = update (update d.live p none) q (d.live p) }

-- A file in the incoming directory itself.
abbrev pub is_top : FilePath → Bool
is_top p = length p == 1

-- `dir.Sync()` on the incoming directory
abbrev pub sync_top : Disk → Disk
sync_top d = record d { stable = λ p. if is_top p then d.live p else d.stable p }

-- `filepath.Join(incomingDir, filename)`
abbrev pub target_path : Bytes → FilePath
target_path filename = filename ∷ []

-- `filepath.Join(incomingDir, ".staging", name)`
abbrev pub staging_path : Bytes → FilePath
staging_path name = codes ".staging" ∷ name ∷ []

-- The calls of one round that fail, and the bytes that a new file can take.
pub record Faults : Type 0 where
  pub make_dir : Bool
  pub random_bytes : Bool
  pub open_file : Bool
  pub sync_file : Bool
  pub close_file : Bool
  pub rename_file : Bool
  pub open_dir : Bool
  pub sync_dir : Bool
  pub remove_file : Bool
  pub room : ℕ

-- `_ = os.Remove(p)`, whose error is ignored
abbrev pub try_remove : Faults → FilePath → Disk → Disk
try_remove f p d = if f.remove_file then d else remove p d
