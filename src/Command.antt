-- ===== src/Command.antt =====
-- The `xport` command of cmd/xport/main.go: its subcommands, what `send`, `recv` and `keygen` set
-- up in front of waiting for a signal, and how `send` ends. Package `flag` is not modelled: the flags are records, after
-- their parsing; a number or a duration that is not positive is 0.
pub mod Flags
pub mod Status
pub mod Send
pub mod Recv
pub mod Keygen
pub mod Monitoring
pub mod Exits
pub mod Ready
pub mod Ingress
pub mod Dialing
pub mod Shutdown
use go_xport.Common.{ℕ, ◌||◌, List, [], ◌∷◌, Bytes, codes, equal, if◌then◌else◌}

-- What main runs, with the arguments behind the subcommand; the usage is followed by an exit code.
pub data Command : Type 0 where
  keygen send recv monitor : List Bytes → Command
  usage : ℕ → Command

unfoldable pub subcommand : Bytes → List Bytes → Command
subcommand name args =
    if equal name (codes "keygen")
    then keygen args
    else if equal name (codes "send")
    then send args
    else if equal name (codes "recv")
    then recv args
    else if equal name (codes "monitor")
    then monitor args
    else if equal name (codes "-h") || equal name (codes "--help") || equal name (codes "help")
    then usage 0
    else usage 2

-- The arguments behind the program's name.
unfoldable pub main : List Bytes → Command
main [] = usage 2
main (name ∷ args) = subcommand name args

-- `os.Exit(2)` behind the usage, or `log.Fatalf`, which exits with 1.
pub data Failure : Type 0 where
  missing_flags no_watch_dir no_incoming_dir no_fingerprints no_status_server : Failure
  status_not_started ingress_not_started bad_max_size keygen_failed : Failure

pub data Outcome (A : Type 0) : Type 0 where
  running : A → Outcome A
  failed : Failure → Outcome A

unfoldable pub exit_code : Failure → ℕ
exit_code Failure.missing_flags = 2
exit_code _ = 1
