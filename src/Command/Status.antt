-- ===== src/Command/Status.antt =====
-- The status server that runSend and runRecv of cmd/xport/main.go start alike.
use go_xport.Common.{Option, none, some, Bytes}
use go_xport.Command.{Outcome, running, failed, no_status_server, status_not_started}
use go_xport.Monitor.Server.{Host, Server, StartError, new_server, start}

-- `listener` is nil until it is started.
abbrev pub StatusServer : Type 0
StatusServer = Server

abbrev pub after_status : Option StartError × Server → Outcome StatusServer
after_status (none, server) = running server
after_status (some e, server) = failed status_not_started

abbrev pub started_status : Host → Option Server → Outcome StatusServer
started_status host none = failed no_status_server
started_status host (some server) = after_status (start host server)

unfoldable pub start_status : Host → Bytes → Bytes → Bytes → Bytes → Outcome StatusServer
start_status host status_addr cert key status_peer_fp =
    started_status host (new_server host status_addr cert key status_peer_fp)
