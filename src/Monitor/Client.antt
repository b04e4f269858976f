-- ===== src/Monitor/Client.antt =====
-- internal/monitor/client.go: the targets, the exit code and the units of `xport monitor`. A state is
-- the text that a node's answer holds, which need not be one of the three that a node reports.
pub mod ExitCode
pub mod Units
pub mod Targets
pub mod Polling
pub mod Completion
pub mod Trust
pub mod Table
use go_xport.Common.{
  ℕ, zero, suc, ◌*◌, ◌/◌, Bool, true, false, List, [], ◌∷◌, Bytes, Option, none, some, codes, ◌==◌,
  ltb, equal, trim_space, split, if◌then◌else◌,
}
use go_xport.Peers.{normalize_fingerprint}

pub record Target : Type 0 where
  pub address : Bytes
  pub fingerprint : Bytes

-- Why a poll gives no status: the TLS configuration, the URL, the connection, another code than 200
-- with its text, or an answer that is no status.
pub data PollError : Type 0 where
  tls_failed bad_url no_answer bad_json : PollError
  http_status : ℕ → Bytes → PollError

-- What is shown of a node's status. Its numbers are not negative.
pub record Report : Type 0 where
  pub node_id : Bytes
  pub role : Bytes
  pub state : Bytes
  pub active_issues : List Bytes
  pub files_total : ℕ
  pub bytes_total : ℕ
  pub errors_total : ℕ
  pub waiting_files : ℕ
  pub failed_files : ℕ
  pub last_ok_seconds : ℕ
  pub free_percent : ℕ

-- Either `Error` or `Status` is not nil.
pub data Answer : Type 0 where
  down : PollError → Answer
  up : Report → Answer

pub record PollResult : Type 0 where
  pub target : Target
  pub answer : Answer

abbrev pub state_in : Answer → Option Bytes
state_in (down e) = none
state_in (up st) = some st.state

-- The state of the status, or none where the poll gave an error.
abbrev pub state_of : PollResult → Option Bytes
state_of res = state_in res.answer

-- The text in front of the first "@", and what follows it, if there is one.
unfoldable pub cut_at : Bytes → Bytes × Option Bytes
cut_at [] = ([], none)
cut_at (c ∷ cs) = let (addr, fp) = cut_at cs in if c == b'@' then ([], some cs) else (c ∷ addr, fp)

abbrev pub target_of : Bytes × Option Bytes → Target
target_of (addr, none) = record { address = addr; fingerprint = [] }
target_of (addr, some fp) = record { address = addr; fingerprint = normalize_fingerprint fp }

abbrev pub add_target : Bytes → List Target → List Target
add_target [] targets = targets
add_target (c ∷ cs) targets = target_of (cut_at (c ∷ cs)) ∷ targets

unfoldable pub targets_of : List Bytes → List Target
targets_of [] = []
targets_of (part ∷ parts) = add_target (trim_space part) (targets_of parts)

abbrev pub some_targets : List Target → Option (List Target)
some_targets [] = none
some_targets (t ∷ ts) = some (t ∷ ts)

unfoldable pub parse_targets : Bytes → Option (List Target)
parse_targets raw = some_targets (targets_of (split b',' raw))

-- The loop of FormatBytes, on fuel: the divisor and the exponent.
unfoldable pub scale : ℕ → ℕ → ℕ → ℕ → ℕ × ℕ
scale zero n div exp = (div, exp)
scale (suc fuel) n div exp =
    let next = scale fuel (n / 1024) (div * 1024) (suc exp) in
    if ltb n 1024 then (div, exp) else next

-- A size in bytes, or the divisor by which it is shown, and the index into "KMGTPE".
pub data Shown : Type 0 where
  in_bytes : ℕ → Shown
  in_units : ℕ → ℕ → ℕ → Shown

unfoldable pub format_bytes : ℕ → Shown
format_bytes b =
    if ltb b 1024
    then in_bytes b
    else (let (div, exp) = scale 64 (b / 1024) 1024 0 in in_units b div exp)

-- The loop of EvaluateExitCode.
abbrev pub code_of : Bool → ℕ
code_of has_warn = if has_warn then 1 else 0

-- By a poll's state, with the codes of the other polls if there is no warning yet, and if there is.
unfoldable pub code_by : Option Bytes → ℕ → ℕ → ℕ
code_by none quiet warned = 2
code_by (some state) quiet warned =
    if equal state (codes "fail") then 2 else (if equal state (codes "warn") then warned else quiet)

unfoldable pub exit_code_from : Bool → List PollResult → ℕ
exit_code_from has_warn [] = code_of has_warn
exit_code_from has_warn (res ∷ results) =
    code_by (state_of res) (exit_code_from has_warn results) (exit_code_from true results)

unfoldable pub evaluate_exit_code : List PollResult → ℕ
evaluate_exit_code results = exit_code_from false results
