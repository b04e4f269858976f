-- ===== src/Tests/Data.antt =====
-- The data that the tests share.
use go_xport.Common.{◌%◌, ◌≡◌, refl, false, [], ◌∷◌, Bytes, codes, none, length, replicate}
use go_xport.Monitor.Tracker.{Tracker, sender}
use go_xport.Receiver.Disk.{Disk, Faults}
use go_xport.Receiver.Connection.{Round}
use go_xport.Wire.Io.{TransferError}
use go_xport.Wire.Stream.{hash_size}

-- A digest of 32 bytes, in place of SHA-256.
abbrev pub toy_sum : Bytes → Bytes
toy_sum b = replicate 32 (length b % 256)

pub length-toy_sum : (b : Bytes) → length (toy_sum b) ≡ hash_size
length-toy_sum b = refl

abbrev pub silent : TransferError → Bytes
silent e = codes "error"

abbrev pub shard : Bytes
shard = codes "a.bin"

abbrev pub content : Bytes
content = 7 ∷ 9 ∷ []

abbrev pub healthy_faults : Faults
healthy_faults = record {
  make_dir = false;
  random_bytes = false;
  open_file = false;
  sync_file = false;
  close_file = false;
  rename_file = false;
  open_dir = false;
  sync_dir = false;
  remove_file = false;
  room = 100;
}

abbrev pub first_round : Round
first_round = record { faults = healthy_faults; rand = 171 ∷ []; now = 50 }

abbrev pub empty_disk : Disk
empty_disk = record { live = λ p. none; stable = λ p. none }

abbrev pub tracker : Tracker
tracker = record {
  node_id = codes "n";
  role = sender;
  start_time = 0;
  disk_warn_pct = 15;
  disk_fail_pct = 5;
  stall_after = 20;
  stale_after = 0;
  files_total = 0;
  bytes_total = 0;
  errors_total = 0;
  last_ok_time = 10;
  recent_errors = 10 ∷ 400_000_000_000 ∷ [];
  waiting_files = 2;
  failed_files = 1;
  active_connections = 0;
}
