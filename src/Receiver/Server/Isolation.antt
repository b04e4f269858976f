-- ===== src/Receiver/Server/Isolation.antt =====
-- Connections of internal/receiver/listener.go that are served at the same time do not spoil each
-- other's files.
use go_xport.Common.{
  set, set_all, ℕ, suc, ◌<◌, ◌==◌, ==_ne_iff, ◌≡◌, ◌⊎◌, refl, sym, subst, ap, ◌∙◌, true, false,
  some, Bytes, IsBytes, length, Bool-cases, inl, inr, arith,
}
use go_xport.Receiver.Connection.Safety.{IsDelivered}
use go_xport.Receiver.Disk.{Disk, FilePath, is_top}
use go_xport.Receiver.Server.Acting.{Acts-Guarded}
use go_xport.Receiver.Server.Framing.{owned-there, IsWork-frame}
use go_xport.Receiver.Server.Guarded.{owned, IsWork, Guarded}
use go_xport.Receiver.Server.Handler.{Handler, State}
use go_xport.Receiver.Server.Parts.{Within-all}
use go_xport.Receiver.Server.System.{
  System, view, put_back, new_handler, accept_failed, halt, accepting, Step, accepts, accept_fails,
  lists, adds, loads_count, publishes_count, spawns, handles, halts, Reaches, made, later,
}
use go_xport.Receiver.Stager.{staged_path}
use go_xport.Wire.Io.{TransferError, Source, Sink}
use go_xport.Wire.Stream.{hash_size}

module _ (sum256 : Bytes → Bytes) where
  -- Every handler's work is in order; no two handlers work on one staged file; and each file of the
  -- incoming directory is as it was at first, or is a message that some client has sent: a valid
  -- name, the whole content, and its digest.
  pub record IsIsolated (first : Disk) (s : System) : Type 0 where
    pub work : (i : ℕ) → IsWork sum256 s.disk (s.handlers i) (s.handlers i).phase
    pub apart :
        (i j : ℕ) (p : FilePath)
        → owned (s.handlers i).phase ≡ some p
        → owned (s.handlers j).phase ≡ some p
        → i ≡ j
    pub safe :
        (q : FilePath)
        → is_top q ≡ true
        → (s.disk.live q ≡ first.live q)
          ⊎ ((i : ℕ) × (i < s.accepted) × IsDelivered sum256 (s.handlers i).sent q (s.disk.live q))

  handles-IsIsolated :
      (first : Disk) (s : System) (i : ℕ) (x : State)
      → i < s.accepted
      → Guarded sum256 (view s i) x
      → IsIsolated first s
      → IsIsolated first (put_back s i x)
  handles-IsIsolated first s i x lt g h = record {
    work =
        set_all (λ j hj. IsWork sum256 x.disk hj hj.phase) s.handlers i x.handler
          (λ j ne.
            IsWork-frame sum256 s.disk x.disk (s.handlers j) (s.handlers j).phase
              (λ rand mine there.
                g.frame rand there
                  (λ his. (==_ne_iff j i).0 ne (h.apart j i (staged_path rand) mine his)))
              (h.work j))
          g.work;
    apart = λ j k p.
        set_all
          (λ j hj.
            owned hj.phase ≡ some p → owned (set s.handlers i x.handler k).phase ≡ some p → j ≡ k)
          s.handlers i x.handler
          (λ j ne mine.
            set_all (λ k hk. owned hk.phase ≡ some p → j ≡ k) s.handlers i x.handler
              (λ k _ his. h.apart j k p mine his) (λ new. clash j p ne mine new) k)
          (set_all (λ k hk. owned x.handler.phase ≡ some p → owned hk.phase ≡ some p → i ≡ k)
            s.handlers i x.handler (λ k ne new his. sym (clash k p ne his new)) (λ _ _. refl) k)
          j;
    safe = λ q top. elim (g.safe q top) [
      | inl same ↦ elim (h.safe q top) [
        | inl old ↦ inl (same ∙ old)
        | inr (j, below, there) ↦ inr (j, below, rw (same, sent j) there)
      ]
      | inr there ↦ inr (i, lt, rw (sent i) there)
    ];
  }
    where
      sent : (j : ℕ) → (set s.handlers i x.handler j).sent ≡ (s.handlers j).sent
      sent =
          set_all (λ j hj. hj.sent ≡ (s.handlers j).sent) s.handlers i x.handler (λ j ne. refl)
            g.sent

      clash :
          (j : ℕ) (p : FilePath)
          → j == i ≡ false
          → owned (s.handlers j).phase ≡ some p
          → owned x.handler.phase ≡ some p
          → j ≡ i
      clash j p ne mine new = elim (g.owns p new) [
        | inl old ↦ h.apart j i p mine old
        | inr empty ↦
            let there =
              owned-there sum256 s.disk (s.handlers j) (s.handlers j).phase p (h.work j) mine in
            absurd (cc)
      ]

  -- A step of acceptLoop or of Close touches neither the disk nor a handler.
  same-IsIsolated :
      (first : Disk) (s t : System)
      → t.disk ≡ s.disk
      → t.handlers ≡ s.handlers
      → t.accepted ≡ s.accepted
      → IsIsolated first s
      → IsIsolated first t
  same-IsIsolated first s t disk handlers accepted h = record {
    work =
        subst (λ (d : Disk). (i : ℕ) → IsWork sum256 d (t.handlers i) (t.handlers i).phase)
          (sym disk)
          (subst (λ (f : ℕ → Handler). (i : ℕ) → IsWork sum256 s.disk (f i) (f i).phase)
            (sym handlers) h.work);
    apart =
        subst
          (λ (f : ℕ → Handler).
            (i j : ℕ) (p : FilePath)
            → owned (f i).phase ≡ some p
            → owned (f j).phase ≡ some p
            → i ≡ j)
          (sym handlers) h.apart;
    safe = λ q top. rw (disk, handlers, accepted) (h.safe q top);
  }

  spawns-IsIsolated :
      (first : Disk) (s : System) (src : Source) (dst : Sink)
      → IsBytes src.input
      → IsIsolated first s
      → IsIsolated first (record s {
        acceptor = accepting;
        accepted = suc s.accepted;
        handlers = set s.handlers s.accepted (new_handler src dst);
      })
  spawns-IsIsolated first s src dst bytes h = record {
    work =
        set_all (λ j hj. IsWork sum256 s.disk hj hj.phase) s.handlers s.accepted new
          (λ j ne. h.work j) (bytes, Within-all src.input);
    apart = λ j k p.
        set_all
          (λ j hj.
            owned hj.phase ≡ some p
            → owned (set s.handlers s.accepted new k).phase ≡ some p
            → j ≡ k)
          s.handlers s.accepted new
          (λ j ne mine.
            set_all (λ k hk. owned hk.phase ≡ some p → j ≡ k) s.handlers s.accepted new
              (λ k _ his. h.apart j k p mine his) (λ e. absurd (cc)) k)
          (λ e. absurd (cc)) j;
    safe = λ q top. elim (h.safe q top) [
      | inl same ↦ inl same
      | inr (j, below, there) ↦
          let ne : j == s.accepted ≡ false = (==_ne_iff j s.accepted).1 (λ e. omega (arith, e)) in
          inr (j, omega arith, rw ne there)
    ];
  }
    where
      new : Handler
      new = new_handler src dst

  module _ (length-sum256 : (b : Bytes) → length (sum256 b) ≡ hash_size)
      (describe : TransferError → Bytes) where
    Step-IsIsolated :
        (first : Disk) (s t : System)
        → Step sum256 describe s t
        → IsIsolated first s
        → IsIsolated first t
    unfolding accept_failed halt
    Step-IsIsolated first s _ (accepts e) h = same-IsIsolated first s _ refl refl refl h
    Step-IsIsolated first s _ (accept_fails now e) h = elim (Bool-cases s.server.stopped) [
      | inl stop ↦ simp stop (same-IsIsolated first s _ refl refl refl h)
      | inr goes ↦ simp goes (same-IsIsolated first s _ refl refl refl h)
    ]
    Step-IsIsolated first s _ (lists e) h = same-IsIsolated first s _ refl refl refl h
    Step-IsIsolated first s _ (adds e) h = same-IsIsolated first s _ refl refl refl h
    Step-IsIsolated first s _ (loads_count e) h = same-IsIsolated first s _ refl refl refl h
    Step-IsIsolated first s _ (publishes_count e) h = same-IsIsolated first s _ refl refl refl h
    Step-IsIsolated first s _ (spawns src dst bytes e) h = spawns-IsIsolated first s src dst bytes h
    Step-IsIsolated first s _ (handles i {x} lt act) h =
        handles-IsIsolated first s i x lt
          (Acts-Guarded sum256 length-sum256 describe i (view s i) x (h.work i) act) h
    Step-IsIsolated first s _ halts h = same-IsIsolated first s _ refl refl refl h

    -- However many connections are served at once, in whatever order the handlers, acceptLoop and
    -- Close take their steps, whatever the clients send, wherever connections are cut and whichever
    -- calls fail: no two handlers work on one staged file, each one's work is in order, and each file of
    -- the incoming directory is as Start left it, or is a message that one client has sent: a valid
    -- name, the whole content, and its digest. The digest function gives 32 bytes.
    pub Reaches-IsIsolated :
        (first : Disk) (s : System) → Reaches sum256 describe first s → IsIsolated first s
    Reaches-IsIsolated first _ (made _ _ _ _ _ _ _ b before server handlers none_yet e) = record {
      work = λ i. subst (λ phase. IsWork sum256 first (handlers i) phase) (sym (none_yet i)) tt;
      apart = λ i j p e. absurd (let none_owned = ap owned (none_yet i) in cc);
      safe = λ q top. inl refl;
    }
    Reaches-IsIsolated first _ (later {s} {t} r step) =
        Step-IsIsolated first s t step (Reaches-IsIsolated first s r)
