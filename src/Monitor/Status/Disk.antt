-- ===== src/Monitor/Status/Disk.antt =====
-- GetDiskStats of internal/monitor/status.go, and what Evaluate makes of a disk that cannot be
-- measured. Floating-point numbers are an argument.
use go_xport.Common.{ℕ, ◌*◌, ◌%◌, ◌^◌, ◌≡◌, refl, arith, Option, none, some, ltb, if◌then◌else◌}
use go_xport.Monitor.Status.{DiskStats, Verdict, check_disk}
use go_xport.Monitor.Tracker.{Tracker}

-- What `syscall.Statfs` reports; the block size is already converted by `uint64(stat.Bsize)`.
pub record Statfs : Type 0 where
  pub available_blocks : ℕ
  pub blocks : ℕ
  pub block_size : ℕ

-- `float64`, as far as it is used here; `to_int` is of a number that is not negative.
pub record Ratios : Type 1 where
  pub Float : Type 0
  pub of_nat : ℕ → Float
  pub div : Float → Float → Float
  pub mul : Float → Float → Float
  pub to_int : Float → ℕ

module _ (rs : Ratios) where
  open rs use {of_nat, div, mul, to_int}

  abbrev pub percent : ℕ → ℕ → ℕ
  percent free_bytes total_bytes =
      if ltb 0 total_bytes
      then to_int (mul (div (of_nat free_bytes) (of_nat total_bytes)) (of_nat 100))
      else 0

  -- None where the call of the operating system fails.
  unfoldable pub get_disk_stats : Option Statfs → Option DiskStats
  get_disk_stats none = none
  get_disk_stats (some stat) =
      let free_bytes = (stat.available_blocks * stat.block_size) % 2 ^ 64 in
      let total_bytes = (stat.blocks * stat.block_size) % 2 ^ 64 in
      some (record {
        total_bytes = total_bytes;
        free_bytes = free_bytes;
        free_percent = percent free_bytes total_bytes;
      })

  -- `disk, _ := GetDiskStats(t.watchDir)`
  abbrev disk_or_zero : Option DiskStats → DiskStats
  disk_or_zero none = record { total_bytes = 0; free_bytes = 0; free_percent = 0 }
  disk_or_zero (some disk) = disk

  unfoldable pub measured : Option Statfs → DiskStats
  measured stat = disk_or_zero (get_disk_stats stat)

  -- A disk that cannot be measured, or that has no blocks, raises no issue.
  check_disk-measured :
      (t : Tracker) (available size : ℕ) (v : Verdict)
      → (check_disk t (measured none) v ≡ v)
        × (check_disk t
              (measured
                (some (record { available_blocks = available; blocks = 0; block_size = size })))
              v
            ≡ v)
  unfolding check_disk measured get_disk_stats
  check_disk-measured t available size v =
      let e : (0 * size) % 2 ^ 64 ≡ 0 = omega arith in (refl, rw e refl)
