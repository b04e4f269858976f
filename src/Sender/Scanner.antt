-- ===== src/Sender/Scanner.antt =====
-- Scanner of internal/sender/scanner.go. Its mutex makes a scan one step. `states` is a function
-- for the map, and a listing is what `os.ReadDir` reports.
pub mod Stability
pub mod TwoScans
pub mod Pushing
pub mod Found
use go_xport.Common.{
  ℕ, suc, ◌==◌, Bool, true, false, not, ◌&&◌, ◌||◌, List, [], ◌∷◌, ◌++◌, Option, none, some, Bytes,
  codes, has_prefix, leb, if◌then◌else◌,
}
use go_xport.Sender.Items.{FileItem, Sorter}
use go_xport.Sender.Queue.{Queue, put, push}
use go_xport.Wire.Filename.{validate_filename}
use go_xport.Wire.Io.{Result, ok, err}

pub record FileScanState : Type 0 where
  pub size : ℕ
  pub mod_time : ℕ
  pub consecutive_scans : ℕ
  pub is_queued : Bool

abbrev pub States : Type 0
States = Bytes → Option FileScanState

-- An entry of the directory; `info` is its size and modification time, if `entry.Info()` has them.
pub record Entry : Type 0 where
  pub name : Bytes
  pub is_dir : Bool
  pub info : Option (ℕ × ℕ)

-- The variables of one scan.
pub record Scan : Type 0 where
  pub states : States
  pub current_files : Bytes → Bool
  pub stable_files : List FileItem

abbrev pub is_ok {ℓ} : {A : Type ℓ} → Result A → Bool
is_ok (ok a) = true
is_ok (err e) = false

-- The size and time of an entry that the scan looks at.
unfoldable pub eligible : Entry → Option (ℕ × ℕ)
eligible entry =
    if entry.is_dir
      || has_prefix entry.name (codes ".")
      || not (is_ok (validate_filename entry.name))
    then none
    else entry.info

-- `state.size == size && state.modTime.Equal(modTime)`
abbrev pub is_same : FileScanState → ℕ → ℕ → Bool
is_same state size mod_time = state.size == size && state.mod_time == mod_time

-- The file's next state, and whether this scan finds it stable.
unfoldable pub observe : ℕ → ℕ → Option FileScanState → FileScanState × Bool
observe size mod_time none =
    (record { size = size; mod_time = mod_time; consecutive_scans = 1; is_queued = false }, false)
observe size mod_time (some state) =
    let scans = suc state.consecutive_scans in
    if is_same state size mod_time
    then if leb 2 scans && not state.is_queued
      then (record state { consecutive_scans = scans; is_queued = true }, true)
      else (record state { consecutive_scans = scans }, false)
    else (record state { size = size; mod_time = mod_time; consecutive_scans = 1 }, false)

abbrev pub item_of : Bytes → ℕ → ℕ → FileItem
item_of name size mod_time = record {
  filename = name;
  path = name ∷ [];
  size = size;
  mod_time = mod_time;
}

unfoldable pub visit_file : Bytes → Option (ℕ × ℕ) → Scan → Scan
visit_file name none scan = scan
visit_file name (some (size, mod_time)) scan =
    let (state, is_stable) = observe size mod_time (scan.states name) in
    record {
      states = put scan.states name (some state);
      current_files = put scan.current_files name true;
      stable_files =
          if is_stable
          then scan.stable_files ++ (item_of name size mod_time ∷ [])
          else scan.stable_files;
    }

unfoldable pub visit_all : List Entry → Scan → Scan
visit_all [] scan = scan
visit_all (entry ∷ entries) scan = visit_all entries (visit_file entry.name (eligible entry) scan)

abbrev pub start : States → Scan
start states = record { states = states; current_files = λ name. false; stable_files = [] }

-- The states of files that have disappeared are removed.
abbrev pub remaining : Scan → States
remaining scan name = if scan.current_files name then scan.states name else none

unfoldable pub push_all : Sorter → List FileItem → Queue → Queue
push_all sorter [] q = q
push_all sorter (item ∷ items) q = push_all sorter items (push sorter item q)

-- `none` where the directory cannot be read.
unfoldable pub scan_once : Sorter → Option (List Entry) → States × Queue → States × Queue
scan_once sorter none (states, q) = (states, q)
scan_once sorter (some entries) (states, q) =
    let scan = visit_all entries (start states) in
    (remaining scan, push_all sorter (sorter.sort scan.stable_files) q)

unfoldable pub mark_completed : Bytes → States → States
mark_completed filename states = put states filename none
