-- ===== src/Wire/Deadline.antt =====
-- The deadlines of a connection, and DeadlineConn of internal/wire/protocol.go, which refreshes them.
-- Times and durations are nanoseconds.
use go_xport.Common.{ℕ, ◌+◌, ◌*◌, ◌==◌, Bool, false, Option, none, some, leb, if◌then◌else◌}

abbrev pub second : ℕ
second = 1_000_000_000

abbrev pub handshake_timeout : ℕ
handshake_timeout = 10 * second

abbrev pub read_write_timeout : ℕ
read_write_timeout = 60 * second

abbrev pub receiver_idle_timeout : ℕ
receiver_idle_timeout = 120 * second

-- What SetReadDeadline and SetWriteDeadline of `net.Conn` have set.
pub record Deadlines : Type 0 where
  pub read_by : Option ℕ
  pub write_by : Option ℕ

abbrev pub set_deadline : ℕ → Deadlines → Deadlines
set_deadline t d = record { read_by = some t; write_by = some t }

abbrev pub set_read_deadline : ℕ → Deadlines → Deadlines
set_read_deadline t d = record d { read_by = some t }

abbrev pub set_write_deadline : ℕ → Deadlines → Deadlines
set_write_deadline t d = record d { write_by = some t }

-- A call that starts now fails at once.
abbrev pub is_expired : ℕ → Option ℕ → Bool
is_expired now none = false
is_expired now (some t) = leb t now

pub record DeadlineConn : Type 0 where
  pub conn : Deadlines
  pub timeout : ℕ

unfoldable pub new_deadline_conn : Deadlines → ℕ → DeadlineConn
new_deadline_conn conn timeout = record { conn = conn; timeout = timeout }

-- What Read and Write do in front of the call of the connection.
unfoldable pub before_read : ℕ → DeadlineConn → DeadlineConn
before_read now c =
    if c.timeout == 0 then c else record c { conn = set_read_deadline (now + c.timeout) c.conn }

unfoldable pub before_write : ℕ → DeadlineConn → DeadlineConn
before_write now c =
    if c.timeout == 0 then c else record c { conn = set_write_deadline (now + c.timeout) c.conn }
