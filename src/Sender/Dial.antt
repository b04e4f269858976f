-- ===== src/Sender/Dial.antt =====
-- ClientPool of internal/sender/client.go: NewClientPool, and dialPersistent. Packages `net` and
-- `crypto/tls` are arguments: which addresses are reached, and which handshakes succeed.
pub mod Pinned
use go_xport.Common.{
  ℕ, ◌+◌, ◌==◌, Bool, List, [], Bytes, codes, equal, Option, none, some, if◌then◌else◌,
}
use go_xport.Peers.Config.{TlsConfig, new_client_config}
use go_xport.Sender.Worker.{AfterAction, delete, archive}
use go_xport.Wire.Deadline.{Deadlines, set_deadline, handshake_timeout}

-- The fields of ClientPool that its arguments set; the queue, the scanner, and whether `stopCh` is
-- closed are those of a Daemon.
pub record ClientPool : Type 0 where
  pub watch_dir : Bytes
  pub target_addr : Bytes
  pub cert_file : Bytes
  pub key_file : Bytes
  pub allowed_receiver_fp : List Bytes
  pub parallel : ℕ
  pub after_action : Bytes

unfoldable pub new_client_pool : Bytes → Bytes → Bytes → Bytes → List Bytes → ℕ → Bytes → ClientPool
new_client_pool watch_dir target_addr cert_file key_file allowed parallel after_action = record {
  watch_dir = watch_dir;
  target_addr = target_addr;
  cert_file = cert_file;
  key_file = key_file;
  allowed_receiver_fp = allowed;
  parallel = if parallel == 0 then 1 else parallel;
  after_action = if equal after_action [] then codes "archive" else after_action;
}

-- How postCommit reads the field.
unfoldable pub action_of : Bytes → AfterAction
action_of after_action = if equal after_action (codes "delete") then delete else archive

-- The address is reached within the timeout; the handshake over a configuration succeeds by the
-- deadline.
pub record Net : Type 0 where
  pub connects : Bytes → ℕ → Bool
  pub shakes_hands : Bytes → TlsConfig → ℕ → Bool

-- Why dialPersistent fails.
pub data DialError : Type 0 where
  config_failed dial_failed handshake_failed : DialError

-- A connection with its deadlines, or the error.
pub data Dialed : Type 0 where
  connection : Deadlines → Dialed
  not_dialed : DialError → Dialed

-- A connection that has just been opened has no deadlines.
abbrev pub no_deadlines : Deadlines
no_deadlines = record { read_by = none; write_by = none }

-- `now` is when the deadline of the handshake is set.
unfoldable pub hand_shake : Net → ℕ → Bytes → TlsConfig → Dialed
hand_shake net now addr cfg =
    if net.shakes_hands addr cfg (now + handshake_timeout)
    then connection (set_deadline (now + handshake_timeout) no_deadlines)
    else not_dialed handshake_failed

unfoldable pub dial : Net → ℕ → Bytes → Option TlsConfig → Dialed
dial net now addr none = not_dialed config_failed
dial net now addr (some cfg) =
    if net.connects addr handshake_timeout
    then hand_shake net now addr cfg
    else not_dialed dial_failed

module _ (sum256 : Bytes → Bytes) (load_key_pair : Bytes → Bytes → Option Bytes) where
  unfoldable pub dial_persistent : Net → ℕ → ClientPool → Dialed
  dial_persistent net now p =
      dial net now p.target_addr
        (new_client_config sum256 load_key_pair p.cert_file p.key_file p.allowed_receiver_fp)
