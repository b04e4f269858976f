-- ===== src/Tests/Sender.antt =====
-- The sender at concrete inputs.
use go_xport.Common.{
  ◌+◌, ◌<◌, ◌≡◌, ◌⊎◌, arith, refl, inl, true, false, List, [], ◌∷◌, ◌++◌, codes, none, some, length,
  replicate, All, equal, has_prefix, has_suffix, contains_byte,
}
use go_xport.Receiver.Disk.{same_path}
use go_xport.Sender.Folder.{Folder, FolderFaults, holds, rename, failed_path}
use go_xport.Sender.Items.{FileItem, In, is_listed}
use go_xport.Sender.Queue.{
  Queue, new_queue, update_failed_count, push, pop, requeue, quarantine, record_failure,
}
use go_xport.Sender.Queue.Invariant.{IsQueue, new_queue-IsQueue}
use go_xport.Sender.Queue.Reachable.{Reaches, last_count, Reaches-IsQueue}
use go_xport.Sender.Queue.Order.{Pops, pop-Pops}
use go_xport.Sender.Queue.Attempts.{IsAway, Retakes, fail_times, fail_times-quarantine}
use go_xport.Sender.Items.{is_listed}
use go_xport.Sender.Scanner.{
  Entry, States, item_of, eligible, observe, visit_file, visit_all, push_all, scan_once,
}
use go_xport.Sender.Scanner.Stability.{Shows, OnceEach}
use go_xport.Sender.Scanner.TwoScans.{InBoth, scan_once-InBoth}
use go_xport.Sender.Scanner.Found.{scan_once-found}
use go_xport.Sender.Worker.{
  archive, Pool, Turn, fail_item, not_connected, work_item, after_pop, work, worker_loop,
}
use go_xport.Sender.Worker.Draining.{Drains, attempts_left, worker_loop-Drains}
use go_xport.Sender.Worker.Files.{TurnFate, work-Fate}
use go_xport.Tests.Data.{toy_sum, tracker, shard}
use go_xport.Tests.Sorting.{sorter}
use go_xport.Wire.Filename.{validate_filename, matches_filename, is_name_byte, is_alnum}
use go_xport.Wire.Io.{IoError}

abbrev folder : Folder
folder = (shard ∷ []) ∷ (codes "b.bin" ∷ []) ∷ []

abbrev empty : Queue
empty = new_queue 3 tracker false folder

abbrev newer : FileItem
newer = item_of (codes "b.bin") 4 9

abbrev older : FileItem
older = item_of shard 2 5

abbrev both : Queue
both = push sorter older (push sorter newer empty)

both-Reaches : Reaches sorter both
both-Reaches = Reaches.pushed older (Reaches.pushed newer (Reaches.made 3 tracker false folder))

abbrev no_faults : FolderFaults
no_faults = record { make_dir = false; rename_file = false; remove_file = false; read_dir = false }

oldest_first : both.items ≡ older ∷ newer ∷ []
unfolding push new_queue update_failed_count equal
oldest_first = refl

Reaches-IsQueue_example : IsQueue both × (both.tracker.failed_files ≡ last_count both-Reaches)
Reaches-IsQueue_example = Reaches-IsQueue sorter both both-Reaches

pop-Pops_example : Pops both (pop both)
pop-Pops_example = pop-Pops both (Reaches-IsQueue sorter both both-Reaches).0

shard_held : holds older.path folder ≡ true
unfolding same_path equal
shard_held = refl

-- A worker has taken the older file.
abbrev rest : Queue
rest = (pop both).1

rest-IsAway : IsAway shard rest
unfolding pop push new_queue update_failed_count equal is_listed
rest-IsAway = record { no_key = refl; not_listed = refl }

none_tried : rest.attempts shard + 3 ≡ rest.max_attempts
unfolding pop push new_queue update_failed_count equal
none_tried = refl

-- The workers take all that waits.
abbrev take_all : Queue → Queue
take_all q = record q { items = []; in_queue = λ name. false }

take_all-Retakes : (q : Queue) → Retakes shard q (take_all q)
unfolding is_listed
take_all-Retakes q = record {
  attempts = refl;
  max_attempts = refl;
  away = record { no_key = refl; not_listed = refl };
}

fail_times-quarantine_example :
    (last : Queue) × (moved : Folder) × (fail_times take_all sorter no_faults older 3 (rest, folder)
      ≡ (replicate 2 (false, true) ++ ((true, false) ∷ []), (take_all last, moved)))
    × (last.attempts shard ≡ 0)
    × (last.in_queue shard ≡ false)
    × (holds (failed_path shard) moved ≡ true)
fail_times-quarantine_example =
    fail_times-quarantine sorter no_faults older take_all take_all-Retakes 2 rest folder rest-IsAway
      none_tried refl shard_held

abbrev listing : List Entry
listing =
    record { name = shard; is_dir = false; info = some (2, 5) }
    ∷ record { name = codes "x.tmp"; is_dir = false; info = some (1, 1) }
    ∷ []

listing-OnceEach : OnceEach listing
unfolding equal
listing-OnceEach = (refl, (refl, tt))

shard_shown : Shows listing shard 2 5
unfolding eligible validate_filename matches_filename is_name_byte is_alnum contains_byte has_suffix
    has_prefix
shard_shown = inl (refl, refl)

abbrev none_seen : States
none_seen name = none

scan_once-InBoth_example :
    All
      (λ item. In item both.items ⊎ InBoth listing listing item)
      (scan_once sorter
        (some listing)
        ((scan_once sorter (some listing) (none_seen, both)).0, both)).1.items
scan_once-InBoth_example =
    scan_once-InBoth sorter listing listing none_seen both both listing-OnceEach

empty_runs : empty.stopped ≡ false
unfolding new_queue update_failed_count
empty_runs = refl

scan_once-found_example :
    is_listed shard
      (scan_once sorter
        (some listing)
        ((scan_once sorter (some listing) (none_seen, empty)).0, empty)).1.items
    ≡ true
scan_once-found_example =
    scan_once-found sorter listing listing none_seen empty empty shard 2 5 listing-OnceEach
      listing-OnceEach shard_shown shard_shown refl (new_queue-IsQueue 3 tracker false folder)
      empty_runs

abbrev turn : Turn
turn = record {
  halted = false;
  halted_later = false;
  dials = false;
  opened = none;
  link = record {
    out = record { written = []; room = 0; fault = IoError.broken };
    back = record { input = []; fault = IoError.eof };
  };
  faults = no_faults;
  now = 60;
}

abbrev pool : Pool
pool = record { queue = both; states = none_seen; folder = folder }

both_left : attempts_left both < length (replicate 7 turn)
unfolding push new_queue update_failed_count equal
both_left = omega arith

worker_loop-Drains_example :
    Drains (worker_loop toy_sum sorter archive (replicate 7 turn) false pool)
worker_loop-Drains_example =
    worker_loop-Drains toy_sum sorter archive (replicate 7 turn) false pool both_left
      (Reaches-IsQueue sorter both both-Reaches).0

-- Dials fail until both files have used up their attempts; then Pop blocks.
worker_gives_up :
    (worker_loop toy_sum sorter archive (replicate 7 turn) false pool).pool.queue.items ≡ []
unfolding worker_loop work pop after_pop work_item not_connected fail_item record_failure quarantine
    requeue push new_queue update_failed_count equal
worker_gives_up = refl

-- A file whose only attempt ends with a failed dial, and that cannot be moved to `.failed`.
abbrev stuck_turn : Turn
stuck_turn = record turn { faults = record no_faults { rename_file = true } }

abbrev queued_states : States
queued_states name =
    some (record { size = 2; mod_time = 5; consecutive_scans = 2; is_queued = true })

abbrev once_only : Pool
once_only = record {
  queue = push sorter older (new_queue 1 tracker false folder);
  states = queued_states;
  folder = folder;
}

abbrev stuck : Pool
stuck = (work toy_sum sorter archive stuck_turn false once_only).pool

-- It is still there, and no later scan that shows it unchanged queues it: its mark has stayed.
stuck_for_ever :
    (holds older.path stuck.folder ≡ true)
    × ((scan_once sorter (some listing) (stuck.states, stuck.queue)).1.items ≡ [])
unfolding work pop after_pop work_item not_connected fail_item record_failure quarantine rename push
    new_queue same_path update_failed_count equal scan_once visit_all visit_file observe eligible
    validate_filename matches_filename is_name_byte is_alnum contains_byte has_suffix has_prefix
    push_all
stuck_for_ever = (refl, refl)

work-Fate_example :
    TurnFate toy_sum sorter archive turn older.path both
      (work toy_sum sorter archive turn false pool).pool.folder
work-Fate_example = work-Fate toy_sum sorter archive turn false pool older.path shard_held
