-- ===== src/Tests/Command.antt =====
-- The daemons' start at concrete flags, and sizes in flags.
use go_xport.Common.{ℕ, ◌+◌, ◌*◌, ◌-◌, true, false, [], ◌∷◌, Option, some, Bytes, codes}
use go_xport.Command.Flags.{SendFlags, RecvFlags, send_defaults, recv_defaults}
use go_xport.Command.Exits.{Exits}
use go_xport.Command.Ingress.{RecvGood, run_recv-Exits}
use go_xport.Command.Ready.{SendGood, run_send-Exits}
use go_xport.Command.Recv.{RecvEnv, run_recv}
use go_xport.Command.Send.{SendEnv, run_send}
use go_xport.Monitor.Server.{Host}
use go_xport.Tests.Data.{empty_disk, toy_sum}
use go_xport.Wire.ByteSize.{Floats}

-- Natural numbers in place of floating-point ones.
abbrev parse_from : ℕ → Bytes → Option ℕ
parse_from acc [] = some acc
parse_from acc (c ∷ cs) = parse_from (acc * 10 + (c - b'0')) cs

abbrev floats : Floats
floats = record {
  Float = ℕ;
  parse_float = parse_from 0;
  of_nat = λ n. n;
  is_negative = λ n. false;
  mul = λ a b. a * b;
  to_uint64 = λ n. n;
}

abbrev host : Host
host = record {
  split_host = λ addr. some (codes "127.0.0.1");
  sum256 = toy_sum;
  load_key_pair = λ cert_file key_file. some (9 ∷ []);
  listens = some (codes "127.0.0.1:9100");
}

abbrev send_env : SendEnv
send_env = record { host = host; make_dir = true; unreadable = false; folder = []; now = 5 }

abbrev send_flags : SendFlags
send_flags = record (send_defaults (codes "n")) {
  addr = codes "h:1";
  cert = codes "c";
  key = codes "k";
  peer_fp = codes "ab";
}

run_send-Exits_example :
    Exits
      (SendGood send_env send_flags)
      (send_flags.addr ∷ send_flags.cert ∷ send_flags.key ∷ send_flags.peer_fp ∷ [])
      (run_send send_env send_flags)
run_send-Exits_example = run_send-Exits send_env send_flags

abbrev recv_env : RecvEnv
recv_env = record {
  host = host;
  make_dir = true;
  boot = record {
    make_dir = false;
    stuck = λ p. false;
    sum256 = toy_sum;
    load_key_pair = λ cert_file key_file. some (9 ∷ []);
    listens = some (codes ":9000");
  };
  disk = empty_disk;
  now = 5;
}

abbrev recv_flags : RecvFlags
recv_flags = record (recv_defaults (codes "n")) {
  cert = codes "c";
  key = codes "k";
  peer_fp = codes "ab";
}

run_recv-Exits_example :
    Exits
      (RecvGood floats recv_env recv_flags)
      (recv_flags.cert ∷ recv_flags.key ∷ recv_flags.peer_fp ∷ [])
      (run_recv floats recv_env recv_flags)
run_recv-Exits_example = run_recv-Exits floats recv_env recv_flags
