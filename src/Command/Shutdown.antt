-- ===== src/Command/Shutdown.antt =====
-- How `xport send` of cmd/xport/main.go ends at a signal, with Stop of internal/sender/client.go.
use go_xport.Common.{ℕ, ◌≤◌, ◌≡◌, ◌⊎◌, refl, subst, [], ◌∷◌, Bytes}
use go_xport.Command.{running}
use go_xport.Command.Exits.{Exits}
use go_xport.Command.Flags.{SendFlags}
use go_xport.Command.Ready.{SendGood, run_send-Exits}
use go_xport.Command.Send.{Sending, SendEnv, send_tracker, run_send, shut_down}
use go_xport.Sender.Daemon.{
  Daemon, close_scanner, close_pool, stop_queue, closes_scanner, closes_pool, stops_queue, Works,
  Runs, steps_by, others, new_daemon,
}
use go_xport.Sender.Daemon.Stopping.{HasStopped, Runs-HasStopped}
use go_xport.Sender.Dial.{action_of}
use go_xport.Sender.Items.{Sorter}
use go_xport.Sender.Queue.{stop}

module _ (sum256 : Bytes → Bytes) (sorter : Sorter) (env : SendEnv) (f : SendFlags) where
  -- Whatever `xport send` has done until the signal: from then on each worker takes at most three more
  -- steps; as long as they have not all returned, one of them can take its next step; and
  -- once they have, so that Stop and the command end, no file is being sent.
  pub run_send-HasStopped :
      (d : Sending) (m n : ℕ) (s t : Daemon)
      → run_send env f ≡ running d
      → Runs sum256 sorter (action_of d.pool.after_action) d.daemon m s
      → (run : Runs sum256 sorter (action_of d.pool.after_action) (shut_down s) n t)
      → ((i : ℕ) → steps_by sum256 sorter (action_of d.pool.after_action) i run ≤ 3)
        × (HasStopped t ⊎ ((u : Daemon) × Works sum256 sorter (action_of d.pool.after_action) t u))
  unfolding shut_down close_scanner close_pool stop_queue stop
  run_send-HasStopped d m n s t runs past run =
      let good =
        subst (Exits (SendGood env f) (f.addr ∷ f.cert ∷ f.key ∷ f.peer_fp ∷ [])) runs
          (run_send-Exits env f) in
      let ready = good.1.0 in
      let new =
        new_daemon d.pool.parallel f.max_attempts (send_tracker env f) env.unreadable env.folder in
      let until : Runs sum256 sorter (action_of d.pool.after_action) new m s =
        subst (λ from. Runs sum256 sorter (action_of d.pool.after_action) from m s) ready.goroutines
          past in
      let ordered = others (others (others until closes_scanner) closes_pool) (stops_queue refl) in
      Runs-HasStopped sum256 sorter (action_of d.pool.after_action) d.pool.parallel f.max_attempts
        (send_tracker env f) env.unreadable env.folder m n (shut_down s) t ordered refl refl run
