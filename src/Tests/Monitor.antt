-- ===== src/Tests/Monitor.antt =====
-- Diagnostics at concrete inputs.
use go_xport.Common.{
  false, inr, ◌++◌, ℕ, suc, ◌^◌, ◌*◌, ◌/◌, ◌≤◌, ◌<◌, ◌≡◌, refl, [], ◌∷◌, List, Bytes, some, none,
  arith, codes, equal, trim_space, trim_left, split, split_from, remove_byte, to_lower,
}
use go_xport.Monitor.Client.Targets.{IsClean, written, written_after, parse_targets-written}
use go_xport.Monitor.Client.{
  Target, PollResult, Report, up, in_units, format_bytes, parse_targets, targets_of, cut_at,
}
use go_xport.Monitor.Client.Units.{format_bytes-unit}
use go_xport.Monitor.Server.{Host, Server, tls_config_failed, new_server, start, answer}
use go_xport.Monitor.Server.Routes.{Answered, answer-Answered}
use go_xport.Peers.Config.{new_server_config}
use go_xport.Peers.{normalize_fingerprint}
use go_xport.Monitor.Status.Disk.{Ratios, get_disk_stats, measured}
use go_xport.Monitor.Status.{DiskStats}
use go_xport.Tests.Data.{tracker, toy_sum}

abbrev disk : DiskStats
disk = record { total_bytes = 1000; free_bytes = 40; free_percent = 4 }

-- Fractions in place of floating-point numbers.
abbrev fractions : Ratios
fractions = record {
  Float = ℕ × ℕ;
  of_nat = λ n. (n, 1);
  div = λ a b. (a.0 * b.1, a.1 * b.0);
  mul = λ a b. (a.0 * b.0, a.1 * b.1);
  to_int = λ a. a.0 / a.1;
}

quarter_free :
    (measured fractions
      (some (record { available_blocks = 1; blocks = 4; block_size = 4096 }))).free_percent
    ≡ 25
unfolding measured get_disk_stats
quarter_free = refl

abbrev reports : Bytes → Report
reports state = record {
  node_id = codes "n";
  role = codes "sender";
  state = state;
  active_issues = [];
  files_total = 1;
  bytes_total = 3_000_000;
  errors_total = 0;
  waiting_files = 0;
  failed_files = 0;
  last_ok_seconds = 4;
  free_percent = 40;
}

abbrev polls : List PollResult
polls =
    record {
      target = record { address = codes "a"; fingerprint = [] };
      answer = up (reports (codes "ok"));
    }
    ∷ record {
      target = record { address = codes "b"; fingerprint = [] };
      answer = up (reports (codes "warn"));
    }
    ∷ []

format_bytes-unit_example :
    (exp : ℕ) × (format_bytes 3_000_000 ≡ in_units 3_000_000 (1024 ^ suc exp) exp)
    × (exp ≤ 5)
    × (1024 ^ suc exp ≤ 3_000_000)
    × (3_000_000 < 1024 ^ suc exp * 1024)
format_bytes-unit_example = format_bytes-unit 3_000_000 (omega arith) (omega arith)

-- A host whose key pair is missing, and where an address is that of an external interface.
abbrev host : Host
host = record {
  split_host = λ addr. some (codes "10.0.0.1");
  sum256 = toy_sum;
  load_key_pair = λ cert_file key_file. none;
  listens = some (codes "10.0.0.1:9100");
}

abbrev server : Server
server = record {
  bind_addr = codes "10.0.0.1:9100";
  cert_file = codes "c";
  key_file = codes "k";
  status_peer_fp = codes "ab";
  listener = none;
  closed = false;
}

server_made :
    new_server host (codes "10.0.0.1:9100") (codes "c") (codes "k") (codes "ab") ≡ some server
unfolding new_server equal
server_made = refl

unpinned_refused : new_server host (codes "10.0.0.1:9100") (codes "c") (codes "k") [] ≡ none
unfolding new_server equal
unpinned_refused = refl

no_key_pair : start host server ≡ (some tls_config_failed, server)
unfolding start equal new_server_config
no_key_pair = refl

answer-Answered_example :
    Answered 500_000_000_000 disk none tracker
      (λ path. path)
      (codes "/healthz")
      (codes "GET")
      (answer 500_000_000_000 disk none (λ path. path) (codes "/healthz") (codes "GET") tracker)
answer-Answered_example =
    answer-Answered 500_000_000_000 disk none tracker (λ path. path) (codes "/healthz")
      (codes "GET")

targets_parsed :
    parse_targets (codes "a:1@AB:cd, ,b:2")
    ≡ some (
        record { address = codes "a:1"; fingerprint = codes "abcd" }
        ∷ record { address = codes "b:2"; fingerprint = [] }
        ∷ [])
unfolding parse_targets targets_of cut_at trim_space trim_left split split_from
    normalize_fingerprint remove_byte to_lower
targets_parsed = refl

abbrev target : Target
target = record { address = codes "a:1"; fingerprint = codes "ab" }

target-IsClean : IsClean target
target-IsClean = record {
  plain = (
    record { not_comma = refl; not_at = refl; not_space = refl },
    (
      record { not_comma = refl; not_at = refl; not_space = refl },
      (record { not_comma = refl; not_at = refl; not_space = refl }, tt),
    ),
  );
  nonempty = λ e. absurd (cc);
  digits = (inr (omega arith, omega arith), (inr (omega arith, omega arith), tt));
}

parse_targets-written_example :
    parse_targets (written target ++ written_after (target ∷ [])) ≡ some (target ∷ target ∷ [])
parse_targets-written_example =
    parse_targets-written target (target ∷ []) (target-IsClean, (target-IsClean, tt))
