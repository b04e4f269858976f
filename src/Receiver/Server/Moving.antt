-- ===== src/Receiver/Server/Moving.antt =====
-- Which files of the incoming directory one step of a handler of internal/receiver/listener.go
-- changes, now and for a crash.
use go_xport.Common.{
  ℕ, Bool, false, ◌≡◌, ◌⊎◌, inl, inr, refl, sym, ap, ◌∙◌, subst, true, [], ◌++◌, Bytes, Option,
  some, Bool-cases, length,
}
use go_xport.Receiver.Commit.{Session, move_in, persist}
use go_xport.Receiver.Commit.Branches.{
  renamed, kept, Unkept, Unanswered, move_in-Outcome, persist-Outcome,
}
use go_xport.Receiver.Commit.Durability.{move_in-others, persist-live}
use go_xport.Receiver.Connection.{Round, refuse, header_failed, ends_quietly, after_stream}
use go_xport.Receiver.Connection.Safety.{
  top-ne-staged, fill-top, try_remove-top, create_staged_file-cases,
}
use go_xport.Receiver.Disk.{
  Disk, File, FilePath, Faults, target_path, fill, try_remove, flush, is_top,
}
use go_xport.Receiver.Server.Handler.{
  State, receiving, committing, session, greet, stage, read_header, read_next, received, receive,
  move, acknowledge, Acts, greets, reads, receives, moves, acknowledges, unlists, subtracts, loads,
  publishes, is_cut,
}
use go_xport.Receiver.Server.Acting.{moved-disk, acknowledge-disk}
use go_xport.Receiver.Server.Guarded.{IsWork}
use go_xport.Receiver.Server.Parts.{Within}
use go_xport.Receiver.Stager.{create_staged_file, staged_path}
use go_xport.Wire.Header.{header_bytes, read_request_header}
use go_xport.Wire.Io.{Result, ok, err, TransferError, Source}
use go_xport.Wire.Outcome.{Outcome}
use go_xport.Wire.Stream.{Copy, hash_size}

create_staged_file-top :
    (f : Faults) (rand : Bytes) (d : Disk)
    → ((q : FilePath) → is_top q ≡ true → (create_staged_file f rand d).1.live q ≡ d.live q)
      × ((create_staged_file f rand d).1.stable ≡ d.stable)
create_staged_file-top f rand d = elim (create_staged_file-cases f rand d) [
  | inl made ↦ rw made (λ q h. fill-top rand [] d q h, refl)
  | inr (e, failed) ↦ rw failed (λ q h. refl, refl)
]

try_remove-stable : (f : Faults) (p : FilePath) (d : Disk) → (try_remove f p d).stable ≡ d.stable
try_remove-stable f p d = elim (Bool-cases f.remove_file) [ inl e ↦ rw e refl | inr e ↦ rw e refl ]

move_in-lasting :
    (f : Faults) (staged : FilePath) (filename : Bytes) (s : Session) (q : FilePath)
    → let d = (move_in f staged filename s).1.disk in
      (d.stable q ≡ s.disk.stable q) ⊎ (d.stable q ≡ d.live q)
move_in-lasting f staged filename s q =
    split (move_in f staged filename s) (move_in-Outcome f staged filename s)
  where
    split :
        (o : Result (Unit {0}) × Session)
        → Outcome (λ t. t ≡ renamed f staged filename s) (Unanswered staged filename s) o
        → (o.1.disk.stable q ≡ s.disk.stable q) ⊎ (o.1.disk.stable q ≡ o.1.disk.live q)
    split (ok u, t) done = inl (ap (λ (t : Session). t.disk.stable q) done)
    split (err e, t) h = h.lasting q

persist-lasting :
    (f : Faults) (s : Session) (q : FilePath)
    → is_top q ≡ true
    → let d = (persist f s).1.disk in (d.stable q ≡ s.disk.stable q) ⊎ (d.stable q ≡ d.live q)
persist-lasting f s q top = split (persist f s) (persist-Outcome f s)
  where
    split :
        (o : Result (Unit {0}) × Session)
        → Outcome (λ t. t ≡ kept s) (Unkept s) o
        → (o.1.disk.stable q ≡ s.disk.stable q) ⊎ (o.1.disk.stable q ≡ o.1.disk.live q)
    split (ok u, t) done =
        subst
          (λ (t : Session). (t.disk.stable q ≡ s.disk.stable q) ⊎ (t.disk.stable q ≡ t.disk.live q))
          (sym done) (inr (rw top refl))
    split (err e, t) h = h.lasting q

module _ (sum256 : Bytes → Bytes) where
  -- The handler is about to rename a staged file to `q`, whose content is `file` and was sent by its
  -- client, whole and with its digest.
  pub record Places (x : State) (q : FilePath) (file : Option File) : Type 0 where
    pub name : Bytes
    pub size : ℕ
    pub staged : FilePath
    pub content : Bytes
    pub phase : x.handler.phase ≡ committing name size staged
    pub path_is : q ≡ target_path name
    pub staged_is : x.disk.live staged ≡ some (record { content = content; flushed = false })
    pub file_is : file ≡ some (record { content = content; flushed = true })
    pub message :
        Within (header_bytes name (length content) ++ (content ++ sum256 content)) x.handler.sent

  pub record Moves (x y : State) : Type 0 where
    pub now :
        (q : FilePath)
        → is_top q ≡ true
        → (y.disk.live q ≡ x.disk.live q) ⊎ Places x q (y.disk.live q)
    pub after_crash :
        (q : FilePath)
        → is_top q ≡ true
        → (y.disk.stable q ≡ x.disk.stable q) ⊎ (y.disk.stable q ≡ y.disk.live q)

  -- A step that changes no file but staged ones.
  leaves-Moves :
      (x y : State)
      → ((q : FilePath) → is_top q ≡ true → y.disk.live q ≡ x.disk.live q)
      → y.disk.stable ≡ x.disk.stable
      → Moves x y
  leaves-Moves x y top stable = record {
    now = λ q h. inl (top q h);
    after_crash = λ q h. inl (ap (λ f. f q) stable);
  }

  quiet-Moves : (x y : State) → y.disk ≡ x.disk → Moves x y
  quiet-Moves x y same =
      leaves-Moves x y (λ q h. ap (λ (d : Disk). d.live q) same) (ap (λ (d : Disk). d.stable) same)

  greet-Moves : (failed : Bool) (now : ℕ) (x : State) → Moves x (greet failed now x)
  unfolding greet
  greet-Moves true now x = quiet-Moves x _ refl
  greet-Moves false now x = quiet-Moves x _ refl

  module _ (length-sum256 : (b : Bytes) → length (sum256 b) ≡ hash_size)
      (describe : TransferError → Bytes) where
    stage-disk :
        (r : Round) (name : Bytes) (size : ℕ) (x : State) (o : Result FilePath × Disk)
        → (stage sum256 describe r name size x o).disk ≡ o.1
    unfolding stage refuse
    stage-disk r name size x (ok p, d) = refl
    stage-disk r name size x (err e, d) = refl

    read_header-Moves :
        (r : Round) (x : State) (o : Result (Bytes × ℕ) × Source)
        → Moves x (read_header sum256 describe r x o)
    unfolding read_header header_failed refuse
    read_header-Moves r x (err e, src) = elim (Bool-cases (ends_quietly e)) [
      | inl q ↦ rw q (quiet-Moves x _ refl)
      | inr q ↦ rw q (quiet-Moves x _ refl)
    ]
    read_header-Moves r x (ok (name, size), src) =
        let made = create_staged_file r.faults r.rand x.disk in
        let here =
          stage-disk r name size (record x { handler = record x.handler { src = src } }) made in
        let (top, stable) = create_staged_file-top r.faults r.rand x.disk in
        leaves-Moves x _ (λ q h. ap (λ (d : Disk). d.live q) here ∙ top q h)
          (ap (λ (d : Disk). d.stable) here ∙ stable)

    read_next-Moves : (r : Round) (x : State) → Moves x (read_next sum256 describe r x)
    unfolding read_next
    read_next-Moves r x = elim (Bool-cases x.server.stopped) [
      | inl e ↦ simp e (quiet-Moves x _ refl)
      | inr e ↦ simp e (read_header-Moves r x (read_request_header x.server.max_size x.handler.src))
    ]

    received-Moves :
        (r : Round) (name : Bytes) (size : ℕ) (rand : Bytes) (staged : FilePath) (x : State)
        (o : Result (Unit {0}) × Copy)
        → staged ≡ staged_path rand
        → Moves x (received sum256 describe r name size staged x o)
    unfolding received after_stream refuse
    received-Moves r name size rand staged x (ok u, c) path =
        leaves-Moves x _ (λ q h. rw path (fill-top rand c.dst.written x.disk q h)) refl
    received-Moves r name size rand staged x (err e, c) path =
        leaves-Moves x _
          (λ q h. rw path (
            try_remove-top r.faults rand (fill (staged_path rand) c.dst.written x.disk) q h
            ∙ fill-top rand c.dst.written x.disk q h))
          (try_remove-stable r.faults staged (fill staged c.dst.written x.disk))

    move-Moves :
        (r : Round) (name : Bytes) (size : ℕ) (staged : FilePath) (x : State)
        → x.handler.phase ≡ committing name size staged
        → IsWork sum256 x.disk x.handler (committing name size staged)
        → Moves x (move sum256 describe r name size staged x)
    unfolding move
    move-Moves r name size staged x at_phase (rest, valid, (rand, path), (content, file, within)) =
        let o = move_in r.faults staged name (session x) in
        let here = moved-disk sum256 length-sum256 describe r name size x o in
        record {
          now = λ q top.
              elim (move_in-others r.faults staged name (session x) q
                (λ same. top-ne-staged q rand top (same ∙ path))) [
                  | inl same ↦ inl (ap (λ (d : Disk). d.live q) here ∙ same)
                  | inr (target, moved) ↦ inr (record {
                    name = name;
                    size = size;
                    staged = staged;
                    content = content;
                    phase = at_phase;
                    path_is = target;
                    staged_is = file;
                    file_is = ap (λ (d : Disk). d.live q) here ∙ moved ∙ ap flush file;
                    message = within;
                  })
                ];
          after_crash = λ q top.
              subst (λ (d : Disk). (d.stable q ≡ x.disk.stable q) ⊎ (d.stable q ≡ d.live q))
                (sym here) (move_in-lasting r.faults staged name (session x) q);
        }

    acknowledge-Moves :
        (r : Round) (size : ℕ) (x : State) → Moves x (acknowledge sum256 describe r size x)
    acknowledge-Moves r size x =
        let here = acknowledge-disk sum256 length-sum256 describe r size x in
        let live = ap (λ (d : Disk). d.live) here ∙ persist-live r.faults (session x) in
        record {
          now = λ q top. inl (ap (λ files. files q) live);
          after_crash = λ q top.
              subst (λ (d : Disk). (d.stable q ≡ x.disk.stable q) ⊎ (d.stable q ≡ d.live q))
                (sym here) (persist-lasting r.faults (session x) q top);
        }

    -- One step of a handler whose work is in order: a file of the incoming directory stays, or becomes
    -- the staged file that the handler was about to rename; and what a crash would leave of it is as
    -- before, or as the file is now.
    pub Acts-Moves :
        (i : ℕ) (x y : State)
        → IsWork sum256 x.disk x.handler x.handler.phase
        → Acts sum256 describe i x y
        → Moves x y
    unfolding receive
    Acts-Moves i x _ work (greets failed now e) = greet-Moves failed now x
    Acts-Moves i x _ work (reads r e) = read_next-Moves r x
    Acts-Moves i x _ work (receives r {filename} {size} {staged} e) =
        let (bytes, valid, within, (rand, path), there) : IsWork sum256 x.disk x.handler
            (receiving filename size staged) =
          rw e at work in
        received-Moves r filename size rand staged x _ path
    Acts-Moves i x _ work (moves r {filename} {size} {staged} e) =
        move-Moves r filename size staged x e (rw e at work)
    Acts-Moves i x _ work (acknowledges r {filename} {size} e) = acknowledge-Moves r size x
    Acts-Moves i x _ work (unlists e) = quiet-Moves x _ refl
    Acts-Moves i x _ work (subtracts e) = quiet-Moves x _ refl
    Acts-Moves i x _ work (loads e) = quiet-Moves x _ refl
    Acts-Moves i x _ work (publishes e) = quiet-Moves x _ refl
    Acts-Moves i x _ work (is_cut left fault dst) = quiet-Moves x _ refl
