-- ===== src/Tests/Receiver.antt =====
-- The receiver, and both daemons together, at concrete inputs.
use go_xport.Common.{
  all, ltb, ltb→lt, &&-eq-true, IsBytes, subst, append-nil, sym, ap, ◌∙◌, contains_byte, has_suffix,
  has_prefix, ◌≡◌, refl, inl, true, false, [], ◌∷◌, ◌++◌, Bytes, codes, arith, some, equal,
}
use go_xport.Receiver.Commit.{Session, commit_barrier, move_in, close_and_rename, persist}
use go_xport.Receiver.Commit.Branches.{Unanswered, committed}
use go_xport.Receiver.Commit.Durability.{
  IsDurable, IsHealthy, commit_barrier-IsDurable, commit_barrier-Unanswered, commit_barrier_lem,
}
use go_xport.Receiver.Connection.{Next, serve, handle_connection}
use go_xport.Receiver.Connection.Safety.{IsSafe}
use go_xport.Receiver.Connection.Sequence.{IsAnswered, handle_connection-IsSafe}
use go_xport.Receiver.Disk.{target_path, FilePath, fill, same_path}
use go_xport.Receiver.Stager.{boot_cleanup, staged_path, is_some}
use go_xport.Receiver.Stager.Cleanup.{boot_cleanup-fresh}
use go_xport.Sender.Transfer.{Link, transfer_file}
use go_xport.Sender.Transfer.Acknowledged.{transfer_file-IsDurable}
use go_xport.Wire.BigEndian.{put_uint}
use go_xport.Wire.Header.{header_bytes}
use go_xport.Sender.Transfer.EndToEnd.{serve-message, transfer_file-serve}
use go_xport.Sender.Transfer.Sends.{settled, message, transfer_file_lem}
use go_xport.Tests.Data.{
  toy_sum, length-toy_sum, silent, shard, content, healthy_faults, first_round, empty_disk, tracker,
}
use go_xport.Wire.Io.{Source, Result, ok, err, IoError, Sink, commit, open_dir}
use go_xport.Wire.Filename.{validate_filename, matches_filename, is_name_byte, is_alnum}
use go_xport.Wire.Response.{ack_byte}

abbrev answers : Sink
answers = record { written = []; room = 100; fault = IoError.broken }

abbrev staged : FilePath
staged = codes ".staging" ∷ codes "ab.tmp" ∷ []

abbrev staged_session : Session
staged_session = record {
  disk = fill staged content empty_disk;
  src = record { input = []; fault = IoError.eof };
  dst = answers;
  tracker = tracker;
}

healthy : IsHealthy healthy_faults
healthy = record {
  make_dir = refl;
  random_bytes = refl;
  open_file = refl;
  sync_file = refl;
  close_file = refl;
  rename_file = refl;
  open_dir = refl;
  sync_dir = refl;
}

commit_barrier-IsDurable_example :
    IsDurable (committed staged shard staged_session).disk shard content
    × ((committed staged shard staged_session).dst.written ≡ [] ++ (ack_byte ∷ []))
unfolding same_path equal
commit_barrier-IsDurable_example =
    commit_barrier-IsDurable healthy_faults staged shard staged_session
      (committed staged shard staged_session) (record { content = content; flushed = false }) refl
      (commit_barrier_lem healthy_faults staged shard staged_session
        (record { content = content; flushed = false }) healthy refl (omega arith))

abbrev no_dir : Session
no_dir = (commit_barrier (record healthy_faults { open_dir = true }) staged shard staged_session).1

no_dir_failed :
    commit_barrier (record healthy_faults { open_dir = true }) staged shard staged_session
    ≡ (err (commit open_dir), no_dir)
unfolding commit_barrier move_in close_and_rename persist same_path equal
no_dir_failed = refl

commit_barrier-Unanswered_example : Unanswered staged shard staged_session no_dir
commit_barrier-Unanswered_example =
    commit_barrier-Unanswered (record healthy_faults { open_dir = true }) staged shard
      staged_session no_dir (commit open_dir) no_dir_failed

abbrev noise : Session
noise = record staged_session { src = record { input = 0x58 ∷ 0x50 ∷ 0 ∷ []; fault = IoError.eof } }

handle_connection-IsSafe_example :
    IsAnswered noise (handle_connection toy_sum silent 0 (first_round ∷ []) noise)
    × IsSafe toy_sum noise.src.input noise.disk
        (handle_connection toy_sum silent 0 (first_round ∷ []) noise).disk
handle_connection-IsSafe_example =
    handle_connection-IsSafe toy_sum length-toy_sum silent 0 (first_round ∷ []) noise (omega arith)

-- One connection between the two daemons: the receiver is given what the sender writes, and the
-- sender is given the ACK.
abbrev pub link : Link
link = record { out = answers; back = record { input = ack_byte ∷ []; fault = IoError.eof } }

abbrev pub joined : Session
joined = record {
  disk = empty_disk;
  src = record {
    input =
        (transfer_file toy_sum (some (settled toy_sum length-toy_sum content)) shard
          link).1.out.written;
    fault = IoError.eof;
  };
  dst = answers;
  tracker = tracker;
}

pub shard_valid : validate_filename shard ≡ ok tt
unfolding validate_filename matches_filename is_name_byte is_alnum contains_byte has_suffix
    has_prefix
shard_valid = refl

joined_input :
    joined.src
    ≡ record { input = message toy_sum length-toy_sum shard content ++ []; fault = IoError.eof }
joined_input =
    let (out, out_is, run) =
      transfer_file_lem toy_sum length-toy_sum shard content link shard_valid (omega arith) in
    ap (λ (b : Bytes). record { input = b; fault = IoError.eof })
      (ap (λ (o : Result (Unit {0}) × Link). o.1.out.written) run
        ∙ out_is
        ∙ sym (append-nil (message toy_sum length-toy_sum shard content)))

fresh : is_some (joined.disk.live (staged_path first_round.rand)) ≡ false
fresh = refl

pub joined_answered : link.back.input ≡ (serve toy_sum silent 0 first_round joined).1.dst.written
joined_answered =
    let (t, served, _, acked, _, _) =
      serve-message toy_sum length-toy_sum silent 0 first_round joined shard content [] IoError.eof
        healthy fresh (omega arith) (omega arith) shard_valid (omega arith) (inl refl)
        joined_input in
    sym (ap (λ (o : Next × Session). o.1.dst.written) served ∙ acked)

transfer_file-serve_example :
    IsDurable (serve toy_sum silent 0 first_round joined).1.disk shard content
    × ((serve toy_sum silent 0 first_round joined).1.src.input ≡ [])
    × ((transfer_file toy_sum (some (settled toy_sum length-toy_sum content)) shard link).0 ≡ ok tt)
transfer_file-serve_example =
    transfer_file-serve toy_sum length-toy_sum silent 0 first_round joined shard content link
      healthy fresh (omega arith) (omega arith) (omega arith) shard_valid (omega arith) (inl refl)
      refl refl refl joined_answered

boot_cleanup-fresh_example :
    ((rand : Bytes)
      → false ≡ false
      → is_some ((boot_cleanup false (λ p. false) staged_session.disk).1.live (staged_path rand))
        ≡ false)
    × ((name : Bytes)
        → (boot_cleanup false (λ p. false) staged_session.disk).1.live (target_path name)
          ≡ staged_session.disk.live (target_path name))
    × ((boot_cleanup false (λ p. false) staged_session.disk).1.stable ≡ staged_session.disk.stable)
boot_cleanup-fresh_example = boot_cleanup-fresh (λ p. false) staged_session.disk

all-IsBytes : (b : Bytes) → all (λ c. ltb c 256) b ≡ true → IsBytes b
all-IsBytes [] h = tt
all-IsBytes (c ∷ cs) h =
    let (first, rest) = (&&-eq-true (ltb c 256) (all (λ c. ltb c 256) cs)).0 h in
    (ltb→lt c 256 first, all-IsBytes cs rest)

message_bytes : all (λ c. ltb c 256) (message toy_sum length-toy_sum shard content ++ []) ≡ true
unfolding header_bytes put_uint
message_bytes = refl

pub joined-IsBytes : IsBytes joined.src.input
joined-IsBytes =
    subst (λ (s : Source). IsBytes s.input) (sym joined_input)
      (all-IsBytes (message toy_sum length-toy_sum shard content ++ []) message_bytes)

pub transfer_done :
    (transfer_file toy_sum (some (settled toy_sum length-toy_sum content)) shard link).0 ≡ ok tt
transfer_done =
    (transfer_file-serve toy_sum length-toy_sum silent 0 first_round joined shard content link
      healthy fresh (omega arith) (omega arith) (omega arith) shard_valid (omega arith) (inl refl)
      refl refl refl joined_answered).2

transfer_file-IsDurable_example :
    IsDurable (serve toy_sum silent 0 first_round joined).1.disk shard content
transfer_file-IsDurable_example =
    transfer_file-IsDurable toy_sum length-toy_sum silent 0 shard content first_round joined link
      (omega arith) shard_valid (omega arith) (inl refl) joined-IsBytes refl refl refl
      joined_answered transfer_done
