-- ===== src/Tests/Server.antt =====
-- The receiving server with its goroutines, at concrete runs.
use go_xport.Common.{
  List, ◌*◌, ℕ, zero, suc, ◌<◌, ◌≡◌, refl, true, false, [], ◌∷◌, Option, some, none, arith,
}
use go_xport.Monitor.Tracker.{set_active_connections, record_error}
use go_xport.Receiver.Connection.Timing.{
  Use, awaits, reads, writes, use_all, accept_deadline, header_error, header_nack-expired,
}
use go_xport.Wire.Deadline.{Deadlines, second}
use go_xport.Receiver.Disk.{Disk}
use go_xport.Peers.Config.{new_server_config}
use go_xport.Receiver.Server.{Server, Boot, StartError, new_server, start}
use go_xport.Receiver.Server.Counting.{IsCounted, Reaches-IsCounted, Reaches-drained}
use go_xport.Receiver.Server.Handler.{
  Handler, State, Acts, gone, waiting, greet, greets, reads, unlists, subtracts, loads, publishes,
  session,
}
use go_xport.Receiver.Server.Isolation.{IsIsolated, Reaches-IsIsolated}
use go_xport.Receiver.Server.System.{
  System, Step, Reaches, made, later, accepts, accept_fails, lists, adds, loads_count,
  publishes_count, spawns, handles, halts, halt, accept_failed, accepting, view, put_back,
}
use go_xport.Receiver.Commit.{Session}
use go_xport.Receiver.Connection.{Next, leave}
use go_xport.Receiver.Stager.{boot_cleanup}
use go_xport.Tests.Data.{toy_sum, length-toy_sum, silent, empty_disk, tracker, first_round}
use go_xport.Wire.Io.{Source, Sink, IoError, invalid_magic}

abbrev boot : Boot
boot = record {
  make_dir = false;
  stuck = λ p. false;
  sum256 = toy_sum;
  load_key_pair = λ cert_file key_file. some (9 ∷ []);
  listens = some (58 ∷ 57 ∷ []);
}

abbrev started : Option StartError × (Server × Disk)
started = start boot (new_server [] [] [] [] [] 0 tracker, empty_disk)

abbrev server : Server
server = started.1.0

abbrev disk : Disk
disk = started.1.1

start_succeeds : started ≡ (none, (server, disk))
unfolding start boot_cleanup new_server_config
start_succeeds = refl

abbrev Run : System → Type 0
Run s = Reaches toy_sum silent disk s

abbrev client : Source
client = record { input = 1 ∷ []; fault = IoError.eof }

abbrev answers : Sink
answers = record { written = []; room = 100; fault = IoError.broken }

abbrev nobody : Handler
nobody = record { phase = gone; src = client; dst = answers; sent = [] }

abbrev first : System
first = record {
  server = server;
  disk = disk;
  acceptor = accepting;
  accepted = 0;
  handlers = λ i. nobody;
}

first-Reaches : Run first
first-Reaches =
    made [] [] [] [] [] 0 tracker boot empty_disk server (λ i. nobody) (λ i. refl) start_succeeds

-- A run of the server, with where it has come to.
abbrev At : Type 0
At = (s : System) × Run s

abbrev then : (a : At) (t : System) → Step toy_sum silent a.0 t → At
then a t step = (t, later a.1 step)

-- acceptLoop lists a connection and counts it.
abbrev counting : (a : At) → a.0.acceptor ≡ accepting → At
counting a e =
    let b = then a _ (accepts e) in
    let c = then b _ (lists refl) in let d = then c _ (adds refl) in then d _ (loads_count refl)

counted_first : At
counted_first = counting (first, first-Reaches) refl

abbrev joined : (a : At) → a.0.acceptor ≡ accepting → At
joined a e =
    let b = counting a e in
    let c = then b _ (publishes_count refl) in
    then c _ (spawns client answers (omega arith, tt) refl)

abbrev two : At
two = joined (joined (first, first-Reaches) refl) refl

-- Handler `i` takes a step.
abbrev steps :
    (a : At) (i : ℕ) (x : State) → i < a.0.accepted → Acts toy_sum silent i (view a.0 i) x → At
steps a i x below act = then a (put_back a.0 i x) (handles i below act)

abbrev first_loaded : At
unfolding greet
first_loaded =
    let a = steps two 0 _ (omega arith) (greets true 60 refl) in
    let b = steps a 0 _ (omega arith) (unlists refl) in
    let c = steps b 0 _ (omega arith) (subtracts refl) in steps c 0 _ (omega arith) (loads refl)

abbrev second_gone : At
unfolding greet
second_gone =
    let a = steps first_loaded 1 _ (omega arith) (greets true 61 refl) in
    let b = steps a 1 _ (omega arith) (unlists refl) in
    let c = steps b 1 _ (omega arith) (subtracts refl) in
    let d = steps c 1 _ (omega arith) (loads refl) in steps d 1 _ (omega arith) (publishes refl)

abbrev both_gone : At
unfolding greet
both_gone = steps second_gone 0 _ (omega arith) (publishes refl)

-- Two connections have come and gone, and the tracker still shows one: the first handler had loaded
-- the count before the second one subtracted.
stale_count :
    (both_gone.0.server.active_conn_count ≡ 0) × (both_gone.0.server.tracker.active_connections ≡ 1)
unfolding greet start new_server boot_cleanup set_active_connections new_server_config
stale_count = (refl, refl)

both_quiet : (i : ℕ) → (both_gone.0.handlers i).phase ≡ gone
unfolding both_gone
both_quiet zero = refl
both_quiet (suc zero) = refl
both_quiet (suc (suc i)) =
    (Reaches-IsCounted toy_sum silent disk both_gone.0 both_gone.1).unused (suc (suc i))
      (omega arith)

abbrev closing : At
unfolding halt accept_failed both_gone
closing = then (then both_gone _ halts) _ (accept_fails 70 refl)

Reaches-IsCounted_example : IsCounted two.0
Reaches-IsCounted_example = Reaches-IsCounted toy_sum silent disk two.0 two.1

Reaches-drained_example :
    (closing.0.server.active_conn_count ≡ 0) × ((i : ℕ) → closing.0.server.conns i ≡ false)
unfolding closing both_gone halt accept_failed
Reaches-drained_example = Reaches-drained toy_sum silent disk closing.0 closing.1 refl both_quiet

abbrev reading : At
unfolding greet
reading =
    let a = steps two 0 _ (omega arith) (greets false 60 refl) in
    steps a 0 _ (omega arith) (reads first_round refl)

Reaches-IsIsolated_example : IsIsolated toy_sum disk reading.0
Reaches-IsIsolated_example =
    Reaches-IsIsolated toy_sum length-toy_sum silent disk reading.0 reading.1

abbrev at_top : State
at_top = record { server = server; disk = disk; handler = record nobody { phase = waiting } }

-- A file was answered in the fifth second, and a bad header comes two minutes later.
abbrev fresh_conn : Deadlines
fresh_conn = record { read_by = none; write_by = none }

abbrev uses : List Use
uses = awaits (1 * second) ∷ reads (2 * second) ∷ writes (5 * second) ∷ awaits (5 * second) ∷ []

-- A stream that begins with other bytes than the magic.
abbrev refused : Next × Session
refused =
    header_error toy_sum silent 100 (100 * second) (use_all uses (accept_deadline 0 fresh_conn))
      first_round invalid_magic (session at_top)

header_nack-expired_example :
    (refused.0 ≡ leave)
    × (refused.1.dst.written ≡ (session at_top).dst.written)
    × (refused.1.tracker ≡ record_error first_round.now (session at_top).tracker)
header_nack-expired_example =
    header_nack-expired toy_sum silent 100 0 (100 * second) uses fresh_conn first_round
      invalid_magic (session at_top) (omega arith) (omega arith, tt) refl
