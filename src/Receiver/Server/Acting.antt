-- ===== src/Receiver/Server/Acting.antt =====
-- Each step of a handler of internal/receiver/listener.go leaves the files of the others alone.
use go_xport.Common.{
  ℕ, ◌≡◌, ◌≢◌, inl, inr, refl, sym, ap, ◌∙◌, subst, true, false, [], ◌++◌, Bytes, IsBytes, none,
  some, Bool-cases, length, append_assoc, All-split, ◌<◌, take,
}
use go_xport.Receiver.Commit.{Session, move_in, persist}
use go_xport.Receiver.Commit.Branches.{
  update_ne, renamed, kept, Unkept, Unanswered, move_in-Outcome, persist-Outcome,
}
use go_xport.Receiver.Commit.Durability.{move_in-others, persist-live}
use go_xport.Receiver.Connection.{Round, Next, stay, leave, refuse, after_commit, after_stream}
use go_xport.Receiver.Connection.Safety.{
  IsDelivered, top-ne-staged, fill-top, try_remove-top, after_commit-disk,
}
use go_xport.Receiver.Disk.{
  Disk, FilePath, Faults, target_path, fill, try_remove, flush, same_path_refl,
}
use go_xport.Receiver.Server.Handler.{
  State, receiving, committing, session, next_phase, rejoin, received, receive, moved, move,
  acknowledge, Acts, greets, reads, receives, moves, acknowledges, unlists, subtracts, loads,
  publishes, is_cut,
}
use go_xport.Receiver.Server.Parts.{Within, Within-back, Within-IsDelivered}
use go_xport.Receiver.Stager.{staged_path}
use go_xport.Wire.Header.{header_bytes}
use go_xport.Wire.Io.{Result, ok, err, TransferError, Source, Sink}
use go_xport.Wire.Outcome.{Outcome}
use go_xport.Wire.Stream.{Copy, hash_size, receive_stream}
use go_xport.Wire.Stream.Integrity.{receive_stream-IsReceived}
use go_xport.Receiver.Server.Guarded.{
  owned, IsRest, IsWork, Guarded, leaves-Guarded, quiet-Guarded, greet-Guarded,
}
use go_xport.Receiver.Server.Cutting.{cut-IsWork}
use go_xport.Receiver.Server.Staging.{read_next-Guarded}

-- A message that was received, with what follows it.
Within-message :
    (sent name : Bytes) (size : ℕ) (content digest rest : Bytes)
    → length content ≡ size
    → Within (header_bytes name size ++ (content ++ (digest ++ rest))) sent
    → Within (header_bytes name (length content) ++ (content ++ digest)) sent
Within-message sent name size content digest rest e (before, behind, split) =
    (before, rest ++ behind, split ∙ rw e (simp (append_assoc)))

pub rejoin-disk : (x : State) (o : Next × Session) → (rejoin o x).disk ≡ o.1.disk
rejoin-disk x (stay, s) = refl
rejoin-disk x (leave, s) = refl

next_free : (n : Next) → owned (next_phase n) ≡ none
next_free stay = refl
next_free leave = refl

-- What a failed stream leaves of another handler's staged file.
other_staged :
    (f : Faults) (rand rand' content : Bytes) (d : Disk) (staged : FilePath)
    → staged ≡ staged_path rand
    → staged_path rand' ≢ staged
    → (try_remove f staged (fill staged content d)).live (staged_path rand')
      ≡ d.live (staged_path rand')
other_staged f rand rand' content d staged path ne = elim (Bool-cases f.remove_file) [
  | inl e ↦ rw e (update_ne d.live staged (staged_path rand') _ ne)
  | inr e ↦ rw e (
      update_ne (fill staged content d).live staged (staged_path rand') none ne
      ∙ update_ne d.live staged (staged_path rand') _ ne)
]

module _ (sum256 : Bytes → Bytes) (length-sum256 : (b : Bytes) → length (sum256 b) ≡ hash_size)
    (describe : TransferError → Bytes) where
  received-Guarded :
      (r : Round) (name : Bytes) (size : ℕ) (staged : FilePath) (x : State) (file : Sink)
      (o : Result (Unit {0}) × Copy)
      → file.written ≡ []
      → x.handler.phase ≡ receiving name size staged
      → IsWork sum256 x.disk x.handler (receiving name size staged)
      → receive_stream sum256 size (record { src = x.handler.src; dst = file; hashed = [] }) ≡ o
      → Guarded sum256 x (received sum256 describe r name size staged x o)
  unfolding received after_stream refuse
  received-Guarded r name size staged x file (err e, c) empty at_phase
        (bytes, valid, within, (rand, path), there) h =
      let left = fill staged c.dst.written x.disk in
      leaves-Guarded sum256 x _
        (λ rand' mine.
          other_staged r.faults rand rand' c.dst.written x.disk staged path
            (λ same. mine (rw at_phase (ap some (sym same)))))
        (λ q top. rw path (
          try_remove-top r.faults rand (fill (staged_path rand) c.dst.written x.disk) q top
          ∙ fill-top rand c.dst.written x.disk q top))
        refl refl tt
  received-Guarded r name size staged x file (ok _, c) empty at_phase
        (bytes, valid, within, (rand, path), there) h =
      let got =
        receive_stream-IsReceived sum256 length-sum256 size x.handler.src.input x.handler.src.fault
          file c h in
      let content_is : c.dst.written ≡ got.content =
        got.written ∙ ap (λ (b : Bytes). b ++ got.content) empty in
      let all : Within
          (header_bytes name size ++ (got.content ++ (sum256 got.content ++ c.src.input)))
          x.handler.sent =
        subst (λ b. Within (header_bytes name size ++ b) x.handler.sent) got.splits within in
      record {
        frame = λ rand' there mine.
            update_ne x.disk.live staged (staged_path rand') _
              (λ same. mine (rw at_phase (ap some (sym same))));
        owns = λ p same. inl (rw at_phase same);
        safe = λ q top. inl (rw path (fill-top rand c.dst.written x.disk q top));
        sent = refl;
        work = (
          (
            (All-split (λ b. b < 256) (sum256 got.content) c.src.input
                (All-split (λ b. b < 256) got.content (sum256 got.content ++ c.src.input)
                  (subst IsBytes got.splits bytes)).1).1,
            Within-back x.handler.sent (sum256 got.content) c.src.input (
                Within-back x.handler.sent got.content (sum256 got.content ++ c.src.input) (
                  Within-back x.handler.sent (header_bytes name size)
                    (got.content ++ (sum256 got.content ++ c.src.input)) all)),
          ),
          valid,
          (rand, path),
          (
            got.content,
            rw (same_path_refl staged)
                (ap (λ (b : Bytes). some (record { content = b; flushed = false })) content_is),
            Within-message x.handler.sent name size got.content (sum256 got.content) c.src.input
                got.size_is all,
          ),
        );
      }

  pub moved-disk :
      (r : Round) (name : Bytes) (size : ℕ) (x : State) (o : Result (Unit {0}) × Session)
      → (moved sum256 describe r name size x o).disk ≡ o.1.disk
  unfolding moved after_commit refuse
  moved-disk r name size x (ok u, t) = refl
  moved-disk r name size x (err e, t) = refl

  moved-free :
      (r : Round) (name : Bytes) (size : ℕ) (x : State) (o : Result (Unit {0}) × Session)
      → let y = moved sum256 describe r name size x o in
        (owned y.handler.phase ≡ none) × (y.handler.sent ≡ x.handler.sent)
  unfolding moved after_commit refuse
  moved-free r name size x (ok u, t) = (refl, refl)
  moved-free r name size x (err e, t) = (refl, refl)

  moved-IsWork :
      (r : Round) (name : Bytes) (size : ℕ) (staged : FilePath) (x : State)
      (o : Result (Unit {0}) × Session)
      → IsRest x.handler
      → Outcome
          (λ t. t ≡ renamed r.faults staged name (session x))
          (Unanswered staged name (session x))
          o
      → let y = moved sum256 describe r name size x o in
        IsWork sum256 y.disk y.handler y.handler.phase
  unfolding moved after_commit refuse
  moved-IsWork r name size staged x (ok u, t) rest done =
      subst (λ (src : Source). IsBytes src.input × Within src.input x.handler.sent)
        (sym (ap (λ (t : Session). t.src) done)) rest
  moved-IsWork r name size staged x (err e, t) rest failed = tt

  after_commit-IsWork :
      (r : Round) (size : ℕ) (x : State) (o : Result (Unit {0}) × Session)
      → IsRest x.handler
      → Outcome (λ t. t ≡ kept (session x)) (Unkept (session x)) o
      → let y = rejoin (after_commit sum256 describe x.server.max_size r size o) x in
        IsWork sum256 y.disk y.handler y.handler.phase
  unfolding after_commit refuse
  after_commit-IsWork r size x (ok u, t) rest done =
      subst (λ (src : Source). IsBytes src.input × Within src.input x.handler.sent)
        (sym (ap (λ (t : Session). t.src) done)) rest
  after_commit-IsWork r size x (err e, t) rest failed = tt

  move-Guarded :
      (r : Round) (name : Bytes) (size : ℕ) (staged : FilePath) (x : State)
      → x.handler.phase ≡ committing name size staged
      → IsWork sum256 x.disk x.handler (committing name size staged)
      → Guarded sum256 x (move sum256 describe r name size staged x)
  unfolding move
  move-Guarded r name size staged x at_phase (rest, valid, (rand, path), (content, file, within)) =
      let o = move_in r.faults staged name (session x) in
      let disk_is = moved-disk r name size x o in
      let (free, sent) = moved-free r name size x o in
      record {
        frame = λ rand' there mine.
            ap (λ (d : Disk). d.live (staged_path rand')) disk_is
            ∙ (elim (move_in-others r.faults staged name (session x) (staged_path rand')
                (λ same. mine (rw at_phase (ap some (sym same))))) [
                  | inl same ↦ same
                  | inr (bad, _) ↦ absurd (top-ne-staged (target_path name) rand' refl (sym bad))
                ]);
        owns = λ p same. absurd (cc);
        safe = λ q top.
            elim (move_in-others r.faults staged name (session x) q
              (λ same. top-ne-staged q rand top (same ∙ path))) [
                | inl same ↦ inl (ap (λ (d : Disk). d.live q) disk_is ∙ same)
                | inr (here, moved) ↦ inr (
                    subst (IsDelivered sum256 x.handler.sent q)
                      (sym (ap (λ (d : Disk). d.live q) disk_is ∙ moved ∙ ap flush file))
                      (subst
                        (λ p.
                          IsDelivered sum256 x.handler.sent p
                            (some (record { content = content; flushed = true })))
                        (sym here)
                        (Within-IsDelivered sum256 x.handler.sent name content valid within)))
              ];
        sent = sent;
        work =
            moved-IsWork r name size staged x o rest
              (move_in-Outcome r.faults staged name (session x));
      }

  pub acknowledge-disk :
      (r : Round) (size : ℕ) (x : State)
      → (acknowledge sum256 describe r size x).disk ≡ (persist r.faults (session x)).1.disk
  unfolding acknowledge
  acknowledge-disk r size x =
      let o = persist r.faults (session x) in
      rejoin-disk x (after_commit sum256 describe x.server.max_size r size o)
      ∙ after_commit-disk sum256 length-sum256 describe x.server.max_size r size o

  acknowledge-Guarded :
      (r : Round) (size : ℕ) (x : State)
      → IsRest x.handler
      → Guarded sum256 x (acknowledge sum256 describe r size x)
  unfolding acknowledge
  acknowledge-Guarded r size x rest =
      let o = persist r.faults (session x) in
      let live : (acknowledge sum256 describe r size x).disk.live ≡ x.disk.live =
        ap (λ (d : Disk). d.live) (acknowledge-disk r size x) ∙ persist-live r.faults (session x) in
      leaves-Guarded sum256 x _ (λ rand mine. ap (λ files. files (staged_path rand)) live)
        (λ q top. ap (λ files. files q) live)
        (next_free (after_commit sum256 describe x.server.max_size r size o).0) refl
        (after_commit-IsWork r size x o rest (persist-Outcome r.faults (session x)))

  -- Whatever a handler does next, it touches no other staged file; it takes up a staged file only
  -- where there was none; each file of the incoming directory stays, or becomes one that the
  -- client has sent, complete; and its own work is in order again.
  pub Acts-Guarded :
      (i : ℕ) (x y : State)
      → IsWork sum256 x.disk x.handler x.handler.phase
      → Acts sum256 describe i x y
      → Guarded sum256 x y
  unfolding receive
  Acts-Guarded i x _ work (greets failed now e) = greet-Guarded sum256 failed now x (rw e at work)
  Acts-Guarded i x _ work (reads r e) =
      read_next-Guarded sum256 length-sum256 describe r x (rw e at work)
  Acts-Guarded i x _ work (receives r {filename} {size} {staged} e) =
      received-Guarded r filename size staged x _ _ refl e (rw e at work) refl
  Acts-Guarded i x _ work (moves r {filename} {size} {staged} e) =
      move-Guarded r filename size staged x e (rw e at work)
  Acts-Guarded i x _ work (acknowledges r {filename} {size} e) =
      acknowledge-Guarded r size x (rw e at work)
  Acts-Guarded i x _ work (unlists e) = quiet-Guarded sum256 x _ refl refl refl tt
  Acts-Guarded i x _ work (subtracts e) = quiet-Guarded sum256 x _ refl refl refl tt
  Acts-Guarded i x _ work (loads e) = quiet-Guarded sum256 x _ refl refl refl tt
  Acts-Guarded i x _ work (publishes e) = quiet-Guarded sum256 x _ refl refl refl tt
  Acts-Guarded i x _ work (is_cut left fault dst) = record {
    frame = λ rand there mine. refl;
    owns = λ p same. inl same;
    safe = λ q top. inl refl;
    sent = refl;
    work =
        cut-IsWork sum256 left x.disk x.handler
          (record { input = take left x.handler.src.input; fault = fault }) dst refl x.handler.phase
          work;
  }
