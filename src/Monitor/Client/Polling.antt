-- ===== src/Monitor/Client/Polling.antt =====
-- PollTarget, PollAll and RunMonitor of internal/monitor/client.go. Packages `net/http` and
-- `encoding/json` are arguments: which URLs make a request, what a request over a TLS configuration,
-- or without one, is answered, and what an answer decodes to.
use go_xport.Common.{
  ℕ, zero, suc, ◌==◌, Bool, List, [], ◌∷◌, ◌++◌, Option, none, some, Bytes, codes, trim_space,
  equal, if◌then◌else◌,
}
use go_xport.Monitor.Client.{
  Target, tls_failed, bad_url, no_answer, bad_json, http_status, Report, Answer, down, up,
  PollResult, parse_targets, evaluate_exit_code,
}
use go_xport.Peers.Config.{TlsConfig, new_client_config}

-- The code and the text of an answer.
pub record Response : Type 0 where
  pub status_code : ℕ
  pub body : Bytes

pub record Web : Type 0 where
  pub is_url : Bytes → Bool
  pub send : Bytes → Option TlsConfig → Option Response
  pub decode : Bytes → Option Report

-- "%s://%s/status"
abbrev pub url_of : Bytes → Target → Bytes
url_of scheme t = scheme ++ (codes "://" ++ (t.address ++ codes "/status"))

abbrev pub decoded : Option Report → Answer
decoded none = down bad_json
decoded (some st) = up st

unfoldable pub answer_of : Web → Option Response → Answer
answer_of web none = down no_answer
answer_of web (some resp) =
    if resp.status_code == 200
    then decoded (web.decode resp.body)
    else down (http_status resp.status_code (trim_space resp.body))

unfoldable pub request : Web → Bytes → Option TlsConfig → Answer
request web url cfg = if web.is_url url then answer_of web (web.send url cfg) else down bad_url

-- One entry of the slice that the goroutines write to; none is its zero value.
abbrev pub write_at : ℕ → PollResult → List (Option PollResult) → List (Option PollResult)
write_at i res [] = []
write_at zero res (slot ∷ slots) = some res ∷ slots
write_at (suc i) res (slot ∷ slots) = slot ∷ write_at i res slots

abbrev pub empty_slots : List Target → List (Option PollResult)
empty_slots [] = []
empty_slots (t ∷ ts) = none ∷ empty_slots ts

abbrev pub target_at : ℕ → List Target → Option Target
target_at i [] = none
target_at zero (t ∷ ts) = some t
target_at (suc i) (t ∷ ts) = target_at i ts

-- The entries that have been written.
abbrev pub written_slots : List (Option PollResult) → List PollResult
written_slots [] = []
written_slots (none ∷ slots) = written_slots slots
written_slots (some res ∷ slots) = res ∷ written_slots slots

module _ (sum256 : Bytes → Bytes) (load_key_pair : Bytes → Bytes → Option Bytes)
    (cert_file key_file : Bytes) where
  abbrev pub over_tls : Web → Bytes → Option TlsConfig → Answer
  over_tls web url none = down tls_failed
  over_tls web url (some cfg) = request web url (some cfg)

  unfoldable pub poll_target : Web → Target → PollResult
  poll_target web t = record {
    target = t;
    answer =
        if equal t.fingerprint []
        then request web (url_of (codes "http") t) none
        else over_tls web (url_of (codes "https") t)
            (new_client_config sum256 load_key_pair cert_file key_file (t.fingerprint ∷ []));
  }

  -- The goroutine of entry `i` ends; each has its own answers.
  abbrev pub finish :
      (ℕ → Web) → ℕ → Option Target → List (Option PollResult) → List (Option PollResult)
  finish webs i none slots = slots
  finish webs i (some t) slots = write_at i (poll_target (webs i) t) slots

  unfoldable pub finish_all :
      (ℕ → Web) → List Target → List ℕ → List (Option PollResult) → List (Option PollResult)
  finish_all webs targets [] slots = slots
  finish_all webs targets (i ∷ order) slots =
      finish_all webs targets order (finish webs i (target_at i targets) slots)

  -- `order` is the order in which the goroutines end.
  unfoldable pub poll_all : (ℕ → Web) → List ℕ → List Target → List (Option PollResult)
  poll_all webs order targets = finish_all webs targets order (empty_slots targets)

  abbrev pub code_for : (ℕ → Web) → List ℕ → ℕ → Option (List Target) → Option ℕ
  code_for webs order watch none = some 2
  code_for webs order watch (some targets) =
      if watch == 0
      then some (evaluate_exit_code (written_slots (poll_all webs order targets)))
      else none

  -- The exit code; none where it polls again and again. A duration that is not positive is 0 here.
  unfoldable pub run_monitor : (ℕ → Web) → List ℕ → ℕ → Bytes → Option ℕ
  run_monitor webs order watch targets_raw = code_for webs order watch (parse_targets targets_raw)
