-- ===== src/Tests/Durable.antt =====
-- A worker's turn and the receiver's round, together at concrete inputs.
use go_xport.Common.{◌≡◌, ap, refl, inl, [], ◌∷◌, some, none, true, false, arith, equal}
use go_xport.Receiver.Commit.Durability.{IsDurable}
use go_xport.Receiver.Connection.{serve}
use go_xport.Receiver.Disk.{same_path}
use go_xport.Sender.Folder.{holds, rename}
use go_xport.Sender.Items.{FileItem}
use go_xport.Sender.Queue.{pop}
use go_xport.Sender.Scanner.{item_of}
use go_xport.Sender.Transfer.Sends.{settled}
use go_xport.Sender.Worker.{archive, Pool, Turn, work, work_item, after_pop, settle, post_commit}
use go_xport.Sender.Worker.Durable.{Joined, work-IsDurable}
use go_xport.Tests.Data.{toy_sum, length-toy_sum, silent, shard, content, first_round, tracker}
use go_xport.Tests.Receiver.{
  link, joined, joined_answered, joined-IsBytes, transfer_done, shard_valid,
}
use go_xport.Tests.Sorting.{sorter}
use go_xport.Wire.Io.{Result}

abbrev item : FileItem
item = item_of shard 2 5

abbrev pool : Pool
pool = record {
  queue = record {
    max_attempts = 3;
    tracker = tracker;
    items = item ∷ [];
    in_queue = equal shard;
    attempts = λ name. 0;
    failed_count = 0;
    stopped = false;
  };
  states = λ name. none;
  folder = item.path ∷ [];
}

abbrev turn : Turn
turn = record {
  halted = false;
  halted_later = false;
  dials = true;
  opened = some (settled toy_sum length-toy_sum content);
  link = link;
  faults = record { make_dir = false; rename_file = false; remove_file = false; read_dir = false };
  now = 60;
}

both_joined : Joined toy_sum length-toy_sum silent 0 shard content turn first_round joined
both_joined = record {
  opened = refl;
  takes_message = omega arith;
  valid = shard_valid;
  small = omega arith;
  admits = inl refl;
  bytes = joined-IsBytes;
  nothing_sent = refl;
  nothing_answered = refl;
  sent = refl;
  answered = joined_answered;
}

archived : holds item.path (work toy_sum sorter archive turn false pool).pool.folder ≡ false
unfolding work work_item after_pop settle post_commit pop rename same_path equal
archived =
    ap
      (λ (r : Result (Unit {0})).
        holds item.path
          (settle toy_sum sorter archive turn item (record pool { queue = (pop pool.queue).1 })
            r).pool.folder)
      transfer_done

was_held : holds item.path pool.folder ≡ true
unfolding same_path equal
was_held = refl

work-IsDurable_example : IsDurable (serve toy_sum silent 0 first_round joined).1.disk shard content
work-IsDurable_example =
    work-IsDurable toy_sum length-toy_sum silent 0 sorter archive turn false pool item [] content
      first_round joined refl (omega arith) was_held both_joined archived
