-- ===== src/Receiver/Server/Counting.antt =====
-- What the connection count and the map of connections of internal/receiver/listener.go say of the
-- handlers that run.
use go_xport.Common.{
  sum, sum-same, sum-split, sum-set, sum_zero, set, ℕ, suc, ◌+◌, ◌%◌, ◌^◌, ◌≤◌, ◌<◌, ◌==◌, ==_iff,
  ==_ne_iff, ==_refl, ◌≡◌, refl, sym, subst, ap, ◌∙◌, true, false, Bytes, Bool-cases, inl, inr,
  arith,
}
use go_xport.Receiver.Disk.{Disk}
use go_xport.Receiver.Server.{Server, new_server}
use go_xport.Receiver.Server.Handler.{Handler, State, gone, Acts}
use go_xport.Receiver.Server.System.{
  accepting, published, ended, System, accept_failed, halt, Step, accepts, accept_fails, lists,
  adds, loads_count, publishes_count, spawns, handles, halts, made, later, Reaches, view, put_back,
  new_handler,
}
use go_xport.Wire.Io.{TransferError, Source, Sink}
use go_xport.Receiver.Server.Steps.{
  weight, is_registered, accept_weight, is_accept_registered, Acts-Counts,
}
use go_xport.Receiver.Server.Starting.{start-Same}

abbrev pub weights : System → ℕ → ℕ
weights s i = weight (s.handlers i).phase

-- The count is the number of connections that are counted in and not out, modulo 2^32; the map has
-- the connections whose handlers have not come to their deferred calls, and the one that acceptLoop
-- has listed; and a connection that was not accepted yet has no handler.
pub record IsCounted (s : System) : Type 0 where
  pub count :
      s.server.active_conn_count ≡ (sum s.accepted (weights s) + accept_weight s.acceptor) % 2 ^ 32
  pub others :
      (i : ℕ) → i == s.accepted ≡ false → s.server.conns i ≡ is_registered (s.handlers i).phase
  pub self : s.server.conns s.accepted ≡ is_accept_registered s.acceptor
  pub unused : (i : ℕ) → s.accepted ≤ i → (s.handlers i).phase ≡ gone

module _ (sum256 : Bytes → Bytes) (describe : TransferError → Bytes) where
  handles-IsCounted :
      (s : System) (i : ℕ) (x : State)
      → i < s.accepted
      → Acts sum256 describe i (view s i) x
      → IsCounted s
      → IsCounted (put_back s i x)
  handles-IsCounted s i x lt act h =
      let c = Acts-Counts sum256 describe i (view s i) x act in
      let w = weights s in
      let w' = weights (put_back s i x) in
      let apart : (j : ℕ)
          → j == i ≡ false
          → (s.handlers j).phase ≡ (set s.handlers i x.handler j).phase =
        λ j ne. rw ne refl in
      let rest = sum s.accepted (set w i 0) in
      let before = sum-split s.accepted i w lt in
      let after = sum-set (λ (h : Handler). weight h.phase) s.accepted s.handlers i x.handler lt in
      let e =
        c.count (rest + accept_weight s.acceptor)
          (h.count ∙ ap (λ n. n % 2 ^ 32) (omega (arith, before))) in
      record {
        count = e ∙ ap (λ n. n % 2 ^ 32) (omega (arith, after, before));
        others = λ j ne. elim (Bool-cases (j == i)) [
          | inl same ↦
              let here = (==_iff j i).0 same in
              subst (λ k. x.server.conns k ≡ is_registered (set s.handlers i x.handler k).phase)
                (sym here)
                (c.self (h.others i (subst (λ k. k == s.accepted ≡ false) here ne))
                  ∙ rw (==_refl i) refl)
          | inr other ↦ c.others j other ∙ h.others j ne ∙ ap is_registered (apart j other)
        ];
        self = c.others s.accepted ((==_ne_iff s.accepted i).1 (λ e. omega (arith, e))) ∙ h.self;
        unused = λ j le. sym (apart j ((==_ne_iff j i).1 (λ e. omega (arith, e)))) ∙ h.unused j le;
      }

  spawns-IsCounted :
      (s : System) (src : Source) (dst : Sink)
      → s.acceptor ≡ published
      → IsCounted s
      → IsCounted (record s {
        acceptor = accepting;
        accepted = suc s.accepted;
        handlers = set s.handlers s.accepted (new_handler src dst);
      })
  spawns-IsCounted s src dst e h =
      let next = set s.handlers s.accepted (new_handler src dst) in
      let old =
        sum-same s.accepted (λ i. weight (next i).phase) (weights s)
          (λ i lt. rw ((==_ne_iff i s.accepted).1 (λ same. omega (arith, same))) refl) in
      let new : weight (next s.accepted).phase ≡ 1 = rw (==_refl s.accepted) refl in
      record {
        count = h.count ∙ ap (λ n. n % 2 ^ 32) (rw e (omega (arith, old, new)));
        others = λ i ne. elim (Bool-cases (i == s.accepted)) [
          | inl same ↦ rw same (
              subst (λ k. s.server.conns k ≡ true) (sym ((==_iff i s.accepted).0 same))
                (h.self ∙ rw e refl))
          | inr other ↦ rw other (h.others i other)
        ];
        self =
            h.others (suc s.accepted)
              ((==_ne_iff (suc s.accepted) s.accepted).1 (λ same. omega (arith, same)))
            ∙ ap is_registered (h.unused (suc s.accepted) (omega arith));
        unused = λ i le.
            rw ((==_ne_iff i s.accepted).1 (λ same. omega (arith, same)))
              (h.unused i (omega arith));
      }

  accept_failed-IsCounted :
      (now : ℕ) (s : System)
      → s.acceptor ≡ accepting
      → IsCounted s
      → IsCounted (accept_failed now s)
  unfolding accept_failed
  accept_failed-IsCounted now s e h = elim (Bool-cases s.server.stopped) [
    | inl stop ↦ simp stop (record {
      count = h.count ∙ ap (λ n. n % 2 ^ 32) (rw e refl);
      others = h.others;
      self = h.self ∙ rw e refl;
      unused = h.unused;
    })
    | inr goes ↦
        simp goes (record { count = h.count; others = h.others; self = h.self; unused = h.unused })
  ]

  Step-IsCounted : (s t : System) → Step sum256 describe s t → IsCounted s → IsCounted t
  unfolding halt
  Step-IsCounted s _ (accepts e) h = record {
    count = rw e at h.count;
    others = h.others;
    self = h.self ∙ rw e refl;
    unused = h.unused;
  }
  Step-IsCounted s _ (accept_fails now e) h = accept_failed-IsCounted now s e h
  Step-IsCounted s _ (lists e) h = record {
    count = rw e at h.count;
    others = λ i ne. rw ne (h.others i ne);
    self = rw (==_refl s.accepted) refl;
    unused = h.unused;
  }
  Step-IsCounted s _ (adds e) h = record {
    count = let n = h.count in let n' = rw e at n in omega (arith, n');
    others = h.others;
    self = h.self ∙ rw e refl;
    unused = h.unused;
  }
  Step-IsCounted s _ (loads_count e) h = record {
    count = rw e at h.count;
    others = h.others;
    self = h.self ∙ rw e refl;
    unused = h.unused;
  }
  Step-IsCounted s _ (publishes_count e) h = record {
    count = rw e at h.count;
    others = h.others;
    self = h.self ∙ rw e refl;
    unused = h.unused;
  }
  Step-IsCounted s _ (spawns src dst bytes e) h = spawns-IsCounted s src dst e h
  Step-IsCounted s _ (handles i {x} lt act) h = handles-IsCounted s i x lt act h
  Step-IsCounted s _ halts h = record {
    count = h.count;
    others = h.others;
    self = h.self;
    unused = h.unused;
  }

  -- Whatever steps acceptLoop, the handlers and Close take, in whatever order, from a server that
  -- NewServer made and Start started: the connection count is, modulo 2^32, the number of
  -- connections that are counted in and not yet out; the map has exactly the connections whose
  -- handlers have not come to their deferred calls, and the one that acceptLoop has just listed; and
  -- a connection that was not accepted yet has no handler.
  pub Reaches-IsCounted : (disk : Disk) (s : System) → Reaches sum256 describe disk s → IsCounted s
  unfolding new_server
  Reaches-IsCounted disk _ (made _ _ _ _ _ _ _ b before server handlers none_yet e) =
      let quiet = start-Same b _ before e in
      record {
        count = ap (λ (s : Server). s.active_conn_count) quiet;
        others = λ i ne. ap (λ (s : Server). s.conns i) quiet ∙ rw (none_yet i) refl;
        self = ap (λ (s : Server). s.conns 0) quiet;
        unused = λ i le. none_yet i;
      }
  Reaches-IsCounted disk _ (later {s} {t} r step) =
      Step-IsCounted s t step (Reaches-IsCounted disk s r)

  -- Once acceptLoop and every handler have returned, which Close waits for, no connection is listed
  -- and the count is 0.
  pub Reaches-drained :
      (disk : Disk) (s : System)
      → Reaches sum256 describe disk s
      → s.acceptor ≡ ended
      → ((i : ℕ) → (s.handlers i).phase ≡ gone)
      → (s.server.active_conn_count ≡ 0) × ((i : ℕ) → s.server.conns i ≡ false)
  Reaches-drained disk s r e quiet =
      let h = Reaches-IsCounted disk s r in
      (
        h.count
            ∙ rw e (
                ap (λ n. (n + 0) % 2 ^ 32)
                  (sum_zero s.accepted (weights s) (λ i. rw (quiet i) refl))),
        λ i. elim (Bool-cases (i == s.accepted)) [
          | inl same ↦
              subst (λ k. s.server.conns k ≡ false) (sym ((==_iff i s.accepted).0 same))
                (h.self ∙ rw e refl)
          | inr ne ↦ h.others i ne ∙ rw (quiet i) refl
        ],
      )
