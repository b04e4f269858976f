-- ===== src/Tests/Crew.antt =====
-- The scanner and the workers together, at a concrete run.
use go_xport.Common.{
  ◌≡◌, refl, false, List, [], ◌∷◌, some, Bytes, equal, has_prefix, has_suffix, contains_byte,
}
use go_xport.Sender.Crew.{Crew, new_crew, is_held, scanned, Reaches, made, later, scans, takes}
use go_xport.Sender.Crew.Alone.{IsCrew, Reaches-IsCrew}
use go_xport.Sender.Items.{FileItem, is_listed}
use go_xport.Sender.Queue.{Queue, new_queue, update_failed_count, push, pop, taken}
use go_xport.Sender.Scanner.{
  Entry, item_of, eligible, scan_once, visit_all, visit_file, push_all, observe,
}
use go_xport.Sender.Scanner.Stability.{OnceEach}
use go_xport.Sender.Worker.{archive}
use go_xport.Tests.Data.{toy_sum, tracker, shard}
use go_xport.Tests.Sorting.{sorter}
use go_xport.Wire.Filename.{validate_filename, matches_filename, is_name_byte, is_alnum}

abbrev listing : List Entry
listing = record { name = shard; is_dir = false; info = some (2, 5) } ∷ []

listing-OnceEach : OnceEach listing
listing-OnceEach = (refl, tt)

abbrev idle : Crew
idle = new_crew 3 tracker false []

idle-held : (name : Bytes) → is_held idle name ≡ false
unfolding new_queue update_failed_count is_listed
idle-held name = refl

abbrev noted : Crew
noted = scanned sorter listing idle

noted-held : (name : Bytes) → is_held noted name ≡ false
unfolding new_queue update_failed_count is_listed scanned scan_once visit_all visit_file push_all
    observe eligible validate_filename matches_filename is_name_byte is_alnum contains_byte
    has_suffix has_prefix
noted-held name = refl

abbrev queued : Crew
queued = scanned sorter listing noted

abbrev item : FileItem
item = item_of shard 2 5

abbrev next : Queue
next = (pop queued.pool.queue).1

taken_item : pop queued.pool.queue ≡ (taken item, next)
unfolding new_queue update_failed_count is_listed scanned scan_once visit_all visit_file push_all
    observe eligible validate_filename matches_filename is_name_byte is_alnum contains_byte
    has_suffix has_prefix equal pop push
taken_item = refl

abbrev sending : Crew
sending = record { pool = record queued.pool { queue = next }; busy = item ∷ [] }

sending-Reaches : Reaches toy_sum sorter archive sending
unfolding scanned
sending-Reaches =
    later
      (later
        (later (made 3 tracker false [])
          (scans listing listing-OnceEach (λ name h. let free = idle-held name in absurd (cc))))
        (scans listing listing-OnceEach (λ name h. let free = noted-held name in absurd (cc))))
      (takes taken_item)

Reaches-IsCrew_example : IsCrew sending
Reaches-IsCrew_example = Reaches-IsCrew toy_sum sorter archive sending sending-Reaches
