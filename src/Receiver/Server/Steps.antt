-- ===== src/Receiver/Server/Steps.antt =====
-- What each step of a handler of internal/receiver/listener.go does to the connection count and to
-- the map of connections.
use go_xport.Common.{
  ℕ, ◌+◌, ◌%◌, ◌^◌, ◌==◌, ==_refl, ◌≡◌, refl, ap, ◌∙◌, Bool, true, false, Bytes, Bool-cases, inl,
  inr, arith,
}
use go_xport.Receiver.Commit.{Session}
use go_xport.Receiver.Connection.{Round, Next, stay, leave}
use go_xport.Receiver.Disk.{Disk, FilePath}
use go_xport.Receiver.Server.Handler.{
  Phase, State, gone, unlisted, subtracted, loaded, greets, reads, receives, moved, move,
  acknowledge, moves, acknowledges, unlists, subtracts, loads, publishes, is_cut, rejoin, greet,
  stage, read_header, read_next, received, receive, Acts,
}
use go_xport.Receiver.Server.System.{AcceptPhase, listed, added, published, count_loaded}
use go_xport.Receiver.Stager.{create_staged_file}
use go_xport.Wire.Header.{read_request_header}
use go_xport.Wire.Io.{Result, ok, err, TransferError, Source}
use go_xport.Wire.Stream.{Copy}

-- The handler is between AddInt32 with 1 and with -1; it is in the map.
abbrev pub weight : Phase → ℕ
weight gone = 0
weight subtracted = 0
weight (loaded count) = 0
weight _ = 1

abbrev pub is_registered : Phase → Bool
is_registered gone = false
is_registered unlisted = false
is_registered subtracted = false
is_registered (loaded count) = false
is_registered _ = true

-- The same of the connection that acceptLoop has in hand.
abbrev pub accept_weight : AcceptPhase → ℕ
accept_weight added = 1
accept_weight (count_loaded count) = 1
accept_weight published = 1
accept_weight _ = 0

abbrev pub is_accept_registered : AcceptPhase → Bool
is_accept_registered listed = true
is_accept_registered added = true
is_accept_registered (count_loaded count) = true
is_accept_registered published = true
is_accept_registered _ = false

-- What a step of handler `i` does to the count and the map: `n` is what the others count.
pub record Counts (i : ℕ) (x y : State) : Type 0 where
  pub count :
      (n : ℕ)
      → x.server.active_conn_count ≡ (n + weight x.handler.phase) % 2 ^ 32
      → y.server.active_conn_count ≡ (n + weight y.handler.phase) % 2 ^ 32
  pub others : (j : ℕ) → j == i ≡ false → y.server.conns j ≡ x.server.conns j
  pub self :
      x.server.conns i ≡ is_registered x.handler.phase
      → y.server.conns i ≡ is_registered y.handler.phase

-- The handler goes on, up to the deferred calls, and the count and the map stay.
record Runs (x y : State) : Type 0 where
  count : y.server.active_conn_count ≡ x.server.active_conn_count
  conns : y.server.conns ≡ x.server.conns
  counted : weight y.handler.phase ≡ 1
  registered : is_registered y.handler.phase ≡ true

Runs-Counts :
    (i : ℕ) (x y : State)
    → weight x.handler.phase ≡ 1
    → is_registered x.handler.phase ≡ true
    → Runs x y
    → Counts i x y
Runs-Counts i x y counted registered h = record {
  count = λ n e. h.count ∙ rw (h.counted) (rw counted at e);
  others = λ j ne. ap (λ (f : ℕ → Bool). f j) h.conns;
  self = λ e. ap (λ (f : ℕ → Bool). f i) h.conns ∙ rw (h.registered) (rw registered at e);
}

rejoin-Runs : (x : State) (o : Next × Session) → Runs x (rejoin o x)
rejoin-Runs x (stay, s) = record { count = refl; conns = refl; counted = refl; registered = refl }
rejoin-Runs x (leave, s) = record { count = refl; conns = refl; counted = refl; registered = refl }

greet-Runs : (failed : Bool) (now : ℕ) (x : State) → Runs x (greet failed now x)
unfolding greet
greet-Runs true now x = record { count = refl; conns = refl; counted = refl; registered = refl }
greet-Runs false now x = record { count = refl; conns = refl; counted = refl; registered = refl }

module _ (sum256 : Bytes → Bytes) (describe : TransferError → Bytes) where
  stage-Runs :
      (r : Round) (filename : Bytes) (size : ℕ) (x : State) (o : Result FilePath × Disk)
      → Runs x (stage sum256 describe r filename size x o)
  unfolding stage
  stage-Runs r filename size x (ok staged, d) = record {
    count = refl;
    conns = refl;
    counted = refl;
    registered = refl;
  }
  stage-Runs r filename size x (err e, d) = rejoin-Runs x _

  read_header-Runs :
      (r : Round) (x : State) (o : Result (Bytes × ℕ) × Source)
      → Runs x (read_header sum256 describe r x o)
  unfolding read_header
  read_header-Runs r x (ok (filename, size), src) =
      let t =
        stage-Runs r filename size (record x { handler = record x.handler { src = src } })
          (create_staged_file r.faults r.rand x.disk) in
      record { count = t.count; conns = t.conns; counted = t.counted; registered = t.registered }
  read_header-Runs r x (err e, src) = rejoin-Runs x _

  read_next-Runs : (r : Round) (x : State) → Runs x (read_next sum256 describe r x)
  unfolding read_next
  read_next-Runs r x = elim (Bool-cases x.server.stopped) [
    | inl e ↦ simp e (record { count = refl; conns = refl; counted = refl; registered = refl })
    | inr e ↦ simp e (read_header-Runs r x (read_request_header x.server.max_size x.handler.src))
  ]

  received-Runs :
      (r : Round) (filename : Bytes) (size : ℕ) (staged : FilePath) (x : State)
      (o : Result (Unit {0}) × Copy)
      → Runs x (received sum256 describe r filename size staged x o)
  unfolding received
  received-Runs r filename size staged x (ok _, c) = record {
    count = refl;
    conns = refl;
    counted = refl;
    registered = refl;
  }
  received-Runs r filename size staged x (err e, c) = rejoin-Runs x _

  moved-Runs :
      (r : Round) (filename : Bytes) (size : ℕ) (x : State) (o : Result (Unit {0}) × Session)
      → Runs x (moved sum256 describe r filename size x o)
  unfolding moved
  moved-Runs r filename size x (ok _, s) = record {
    count = refl;
    conns = refl;
    counted = refl;
    registered = refl;
  }
  moved-Runs r filename size x (err e, s) = rejoin-Runs x _

  pub Acts-Counts : (i : ℕ) (x y : State) → Acts sum256 describe i x y → Counts i x y
  unfolding receive move acknowledge
  Acts-Counts i x _ (greets failed now e) =
      Runs-Counts i x _ (rw e refl) (rw e refl) (greet-Runs failed now x)
  Acts-Counts i x _ (reads r e) = Runs-Counts i x _ (rw e refl) (rw e refl) (read_next-Runs r x)
  Acts-Counts i x _ (receives r {filename} {size} {staged} e) =
      Runs-Counts i x _ (rw e refl) (rw e refl) (received-Runs r filename size staged x _)
  Acts-Counts i x _ (moves r {filename} {size} e) =
      Runs-Counts i x _ (rw e refl) (rw e refl) (moved-Runs r filename size x _)
  Acts-Counts i x _ (acknowledges r e) = Runs-Counts i x _ (rw e refl) (rw e refl) (rejoin-Runs x _)
  Acts-Counts i x _ (unlists e) = record {
    count = λ n h. rw e at h;
    others = λ j ne. rw ne refl;
    self = λ h. rw (==_refl i) refl;
  }
  Acts-Counts i x _ (subtracts e) = record {
    count = λ n h. let h' = rw e at h in omega (arith, h');
    others = λ j ne. refl;
    self = λ h. rw e at h;
  }
  Acts-Counts i x _ (loads e) = record {
    count = λ n h. rw e at h;
    others = λ j ne. refl;
    self = λ h. rw e at h;
  }
  Acts-Counts i x _ (publishes e) = record {
    count = λ n h. rw e at h;
    others = λ j ne. refl;
    self = λ h. rw e at h;
  }
  Acts-Counts i x _ (is_cut left fault dst) = record {
    count = λ n h. h;
    others = λ j ne. refl;
    self = λ h. h;
  }
