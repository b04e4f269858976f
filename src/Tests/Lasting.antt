-- ===== src/Tests/Lasting.antt =====
-- A file that the receiving server has acknowledged, at a concrete run.
use go_xport.Common.{
  ◌<◌, ◌≡◌, ◌++◌, refl, true, false, [], ◌∷◌, Option, some, none, arith, Bytes, IsBytes, length,
  equal, hex,
}
use go_xport.Receiver.Commit.{move_in, close_and_rename, persist, sync_and_ack}
use go_xport.Receiver.Connection.{after_commit}
use go_xport.Receiver.Disk.{Disk, FilePath, target_path, same_path}
use go_xport.Peers.Config.{new_server_config}
use go_xport.Receiver.Server.{Server, Boot, StartError, new_server, start}
use go_xport.Receiver.Server.Handler.{
  Handler, State, Acts, gone, waiting, receiving, committing, greet, read_next, read_header, stage,
  placed, received, receive, moved, move, acknowledge, greets, reads, receives,
}
use go_xport.Receiver.Server.Lasting.{
  here, next, IsLasting, moves_to, acknowledges_to, commit-IsLasting,
}
use go_xport.Receiver.Server.Parts.{Within}
use go_xport.Receiver.Server.System.{
  System, Step, Reaches, made, later, accepts, lists, adds, loads_count, publishes_count, spawns,
  handles, halts, halt, accepting, view, put_back,
}
use go_xport.Receiver.Stager.{boot_cleanup, create_staged_file, staged_path}
use go_xport.Tests.Data.{
  toy_sum, length-toy_sum, silent, empty_disk, tracker, first_round, shard, content,
}
use go_xport.Wire.BigEndian.{put_uint, uint}
use go_xport.Wire.Header.{
  header_bytes, read_magic, read_name_of, read_name, read_size, read_request_header,
}
use go_xport.Wire.Stream.{copy_loop, copy_buffer, check_trailer, receive_stream}
use go_xport.Wire.Filename.{validate_filename}
use go_xport.Wire.Io.{Source, Sink, IoError, read_full, write}
use go_xport.Wire.Response.{write_ack, ack_byte}

abbrev boot : Boot
boot = record {
  make_dir = false;
  stuck = λ p. false;
  sum256 = toy_sum;
  load_key_pair = λ cert_file key_file. some (9 ∷ []);
  listens = some (58 ∷ 57 ∷ []);
}

abbrev started : Option StartError × (Server × Disk)
started = start boot (new_server [] [] [] [] [] 100 tracker, empty_disk)

abbrev server : Server
server = started.1.0

start_succeeds : started ≡ (none, (server, started.1.1))
unfolding start boot_cleanup new_server_config
start_succeeds = refl

abbrev client : Source
client = record {
  input = header_bytes shard 2 ++ (content ++ toy_sum content);
  fault = IoError.eof;
}

abbrev answers : Sink
answers = record { written = []; room = 100; fault = IoError.broken }

abbrev nobody : Handler
nobody = record { phase = gone; src = client; dst = answers; sent = [] }

-- A run of the server, with where it has come to.
abbrev At : Type 0
At = (s : System) × Reaches toy_sum silent started.1.1 s

abbrev then : (a : At) (t : System) → Step toy_sum silent a.0 t → At
then a t step = (t, later a.1 step)

abbrev steps : (a : At) (x : State) → 0 < a.0.accepted → Acts toy_sum silent 0 (view a.0 0) x → At
steps a x below act = then a (put_back a.0 0 x) (handles 0 below act)

abbrev first : At
first = (
  record {
    server = server;
    disk = started.1.1;
    acceptor = accepting;
    accepted = 0;
    handlers = λ i. nobody;
  },
  made [] [] [] [] [] 100 tracker boot empty_disk server (λ i. nobody) (λ i. refl) start_succeeds,
)

client-IsBytes : IsBytes client.input
unfolding header_bytes put_uint
client-IsBytes = omega arith

abbrev joined : At
joined =
    let a = then first _ (accepts refl) in
    let b = then a _ (lists refl) in
    let c = then b _ (adds refl) in
    let d = then c _ (loads_count refl) in
    let e = then d _ (publishes_count refl) in then e _ (spawns client answers client-IsBytes refl)

abbrev staged : FilePath
staged = staged_path first_round.rand

abbrev greeted : At
greeted = steps joined _ (omega arith) (greets false 60 refl)

greeted_waits : (greeted.0.handlers 0).phase ≡ waiting
unfolding greet
greeted_waits = refl

abbrev staging : At
staging = steps greeted _ (omega arith) (reads first_round greeted_waits)

staging_receives : (staging.0.handlers 0).phase ≡ receiving shard 2 staged
unfolding greet read_next read_header stage receive received read_request_header header_bytes
    put_uint create_staged_file staged_path receive_stream start boot_cleanup new_server_config
    new_server read_magic read_full equal read_name read_name_of uint validate_filename read_size
    hex
staging_receives = refl

-- The message is on the disk, and the handler is about to commit it.
abbrev received_all : At
received_all = steps staging _ (omega arith) (receives first_round staging_receives)

received_commits : (received_all.0.handlers 0).phase ≡ committing shard 2 staged
unfolding greet read_next read_header stage receive received read_request_header header_bytes
    put_uint create_staged_file staged_path receive_stream start boot_cleanup new_server_config
    new_server read_magic read_full equal read_name read_name_of uint validate_filename read_size
    hex copy_buffer copy_loop write check_trailer
received_commits = refl

moves_on :
    (move toy_sum silent first_round shard 2 staged (view received_all.0 0)).handler.phase
    ≡ placed shard 2
unfolding greet read_next read_header stage receive received read_request_header header_bytes
    put_uint create_staged_file staged_path receive_stream start boot_cleanup new_server_config
    new_server read_magic read_full equal read_name read_name_of uint validate_filename read_size
    hex copy_buffer copy_loop write check_trailer move moved move_in close_and_rename same_path
moves_on = refl

-- The file has its name; the directory is not synced yet.
abbrev renamed : System
renamed = moves_to toy_sum silent first_round shard 2 staged received_all.0 0

abbrev acked : System
acked = acknowledges_to toy_sum silent first_round 2 renamed 0

answered :
    (acknowledge toy_sum silent first_round 2 (view renamed 0)).handler.dst.written
    ≡ (renamed.handlers 0).dst.written ++ (ack_byte ∷ [])
unfolding greet read_next read_header stage receive received read_request_header header_bytes
    put_uint create_staged_file staged_path receive_stream start boot_cleanup new_server_config
    new_server read_magic read_full equal read_name read_name_of uint validate_filename read_size
    hex copy_buffer copy_loop write check_trailer move moved move_in close_and_rename same_path
    acknowledge after_commit persist sync_and_ack write_ack
answered = refl

-- The connection is closed behind the ACK.
commit-IsLasting_example :
    (content' : Bytes) × Within
      (header_bytes shard (length content') ++ (content' ++ toy_sum content'))
      (received_all.0.handlers 0).sent
    × IsLasting toy_sum silent renamed
        (halt acked)
        (target_path shard)
        (record { content = content'; flushed = true })
commit-IsLasting_example =
    commit-IsLasting toy_sum silent length-toy_sum started.1.1 received_all.0 renamed (halt acked) 0
      first_round first_round shard 2 staged received_all.1 (omega arith) received_commits moves_on
      here (omega arith) moves_on answered (next here halts)
