-- ===== src/Tests/Polls.antt =====
-- The polls of `xport monitor`, at concrete answers.
use go_xport.Common.{
  ℕ, zero, suc, ◌<◌, ◌≡◌, refl, true, false, List, [], ◌∷◌, Option, none, some, Bytes, codes, hex,
  map, length, arith, equal, trim_space, trim_left, split, split_from, to_lower, remove_byte,
}
use go_xport.Monitor.Client.{Target, Report, up, parse_targets, targets_of, cut_at}
use go_xport.Monitor.Client.Completion.{is_member, poll_each, poll_all-poll_each, run_monitor-Exits}
use go_xport.Monitor.Client.ExitCode.{Exits}
use go_xport.Monitor.Client.Polling.{
  Web, Response, request, answer_of, poll_target, poll_all, run_monitor, url_of,
}
use go_xport.Monitor.Client.Trust.{IsChecked, poll_target-Pins}
use go_xport.Peers.{
  Verdict, verify_peer_certificate, verify_der, is_matched, fingerprint_der, parse_fingerprints,
  parse_parts, normalize_fingerprint, accepted,
}
use go_xport.Peers.Config.{TlsConfig, new_client_config}
use go_xport.Peers.Pinned.{Pins}
use go_xport.Tests.Data.{toy_sum, length-toy_sum}

abbrev report : Report
report = record {
  node_id = codes "n";
  role = codes "sender";
  state = codes "warn";
  active_issues = [];
  files_total = 1;
  bytes_total = 3_000_000;
  errors_total = 0;
  waiting_files = 0;
  failed_files = 0;
  last_ok_seconds = 4;
  free_percent = 40;
}

abbrev cert : Bytes
cert = 1 ∷ 2 ∷ []

abbrev presented : Bytes → List Bytes
presented url = cert ∷ []

abbrev answer : Response
answer = record { status_code = 200; body = [] }

-- A server that is asked only if the configured callback lets it in.
abbrev if_accepted : Verdict → Option Response
if_accepted accepted = some answer
if_accepted _ = none

abbrev send : Bytes → Option TlsConfig → Option Response
send url none = some answer
send url (some cfg) = if_accepted (cfg.verify_peer (presented url))

abbrev web : Web
web = record { is_url = λ url. true; send = send; decode = λ body. some report }

if_accepted-some : (v : Verdict) (resp : Response) → if_accepted v ≡ some resp → v ≡ accepted
if_accepted-some accepted resp h = refl
if_accepted-some (Verdict.refused e) resp h = absurd (cc)

web-IsChecked : IsChecked web presented
web-IsChecked = record {
  checked = λ url cfg resp h. if_accepted-some (cfg.verify_peer (presented url)) resp h;
}

abbrev load : Bytes → Bytes → Option Bytes
load cert_file key_file = some (9 ∷ [])

abbrev local : Target
local = record { address = codes "a"; fingerprint = [] }

abbrev far : Target
far = record { address = codes "b"; fingerprint = hex (toy_sum cert) }

both_end : (i : ℕ) → i < length (local ∷ far ∷ []) → is_member i (1 ∷ 0 ∷ []) ≡ true
both_end zero lt = refl
both_end (suc zero) lt = refl
both_end (suc (suc i)) lt = absurd (omega arith)

poll_all-poll_each_example :
    poll_all toy_sum load [] [] (λ i. web) (1 ∷ 0 ∷ []) (local ∷ far ∷ [])
    ≡ map some (poll_each toy_sum load [] [] (λ i. web) (local ∷ far ∷ []))
poll_all-poll_each_example =
    poll_all-poll_each toy_sum load [] [] (λ i. web) (1 ∷ 0 ∷ []) (local ∷ far ∷ []) both_end

abbrev raw : Bytes
raw = codes "a,"

raw_read : parse_targets raw ≡ some (local ∷ [])
unfolding parse_targets targets_of cut_at split split_from trim_space trim_left
raw_read = refl

one_ends : (i : ℕ) → i < length (local ∷ []) → is_member i (0 ∷ []) ≡ true
one_ends zero lt = refl
one_ends (suc i) lt = absurd (omega arith)

run_monitor-Exits_example :
    (n : ℕ) × (run_monitor toy_sum load [] [] (λ i. web) (0 ∷ []) 0 raw ≡ some n)
    × Exits (poll_each toy_sum load [] [] (λ i. web) (local ∷ [])) n
run_monitor-Exits_example =
    run_monitor-Exits toy_sum load [] [] (λ i. web) (0 ∷ []) raw (local ∷ []) raw_read one_ends

far_pinned : equal far.fingerprint [] ≡ false
unfolding equal hex
far_pinned = refl

far-up : (poll_target toy_sum load [] [] web far).answer ≡ up report
unfolding poll_target request answer_of new_client_config verify_peer_certificate verify_der
    is_matched fingerprint_der parse_fingerprints parse_parts normalize_fingerprint split split_from
    trim_space trim_left hex remove_byte to_lower equal
far-up = refl

poll_target-Pins_example :
    (der : Bytes) × (rest : List Bytes) × (presented (url_of (codes "https") far) ≡ der ∷ rest)
    × Pins (far.fingerprint ∷ []) (hex (toy_sum der))
poll_target-Pins_example =
    poll_target-Pins toy_sum length-toy_sum load [] [] web presented far report web-IsChecked
      far_pinned far-up
