-- ===== src/Receiver/Connection/Safety.antt =====
-- No partial, corrupt or misnamed file appears in the incoming directory, whatever the client sends
-- and whichever calls fail: handleConnection of internal/receiver/listener.go.
use go_xport.Common.{
  ℕ, ◌≡◌, ◌≢◌, ◌⊎◌, inl, inr, refl, sym, ap, ◌∙◌, subst, true, false, ◌||◌, [], ◌++◌, Bytes,
  IsBytes, Option, none, some, Bool-cases, length, codes,
}
use go_xport.Receiver.Disk.{
  Disk, File, FilePath, Faults, target_path, fill, try_remove, is_top, flush, same_path_refl,
}
use go_xport.Receiver.Stager.{create_staged_file, staged_path, is_some}
use go_xport.Receiver.Commit.{Session, commit_barrier}
use go_xport.Receiver.Commit.Branches.{update_ne}
use go_xport.Receiver.Commit.Durability.{commit_barrier-others}
use go_xport.Receiver.Connection.{
  Round, refuse, header_failed, ends_quietly, after_commit, after_stream, after_staging,
  after_header, serve,
}
use go_xport.Wire.Filename.{validate_filename}
use go_xport.Wire.Header.{header_bytes, read_request_header}
use go_xport.Wire.Header.Canonical.{read_request_header-IsHeader}
use go_xport.Wire.Io.{
  staging, make_dir, random_bytes, open_file, Result, ok, err, TransferError, IoError, Source, Sink,
}
use go_xport.Wire.Stream.{Copy, hash_size, receive_stream}
use go_xport.Wire.Stream.Integrity.{IsReceived, receive_stream-IsReceived}

module _ (sum256 : Bytes → Bytes) where
  -- `input` holds, somewhere, a whole message for this path: a valid header, the content, and its
  -- digest; and the file is that content.
  pub record IsDelivered (input : Bytes) (q : FilePath) (file : Option File) : Type 0 where
    pub name : Bytes
    pub content : Bytes
    pub before : Bytes
    pub behind : Bytes
    pub valid : validate_filename name ≡ ok tt
    pub path_is : q ≡ target_path name
    pub message :
        input
        ≡ before ++ (header_bytes name (length content) ++ (content ++ (sum256 content ++ behind)))
    pub file_is : file ≡ some (record { content = content; flushed = true })

  -- Each file of the incoming directory is as it was, or was delivered by `input`.
  abbrev pub IsSafe : Bytes → Disk → Disk → Type 0
  IsSafe input d d' =
      (q : FilePath) → is_top q ≡ true → (d'.live q ≡ d.live q) ⊎ IsDelivered input q (d'.live q)

-- The first of the two cases, seen from a state where the file is the same.
before_staging : {D : Type 0} {x a b : Option File} → a ≡ b → (x ≡ a) ⊎ D → (x ≡ b) ⊎ D
before_staging e (inl h) = inl (h ∙ e)
before_staging e (inr h) = inr h

-- A staged file is not in the incoming directory itself.
pub top-ne-staged : (q : FilePath) (rand : Bytes) → is_top q ≡ true → q ≢ staged_path rand
unfolding staged_path
top-ne-staged q rand h e =
    let bad : is_top (staged_path rand) ≡ true = subst (λ p. is_top p ≡ true) e h in cc

pub fill-top :
    (rand content : Bytes) (d : Disk) (q : FilePath)
    → is_top q ≡ true
    → (fill (staged_path rand) content d).live q ≡ d.live q
fill-top rand content d q h =
    update_ne d.live (staged_path rand) q (some (record { content = content; flushed = false }))
      (top-ne-staged q rand h)

pub try_remove-top :
    (f : Faults) (rand : Bytes) (d : Disk) (q : FilePath)
    → is_top q ≡ true
    → (try_remove f (staged_path rand) d).live q ≡ d.live q
try_remove-top f rand d q h = elim (Bool-cases f.remove_file) [
  | inl e ↦ rw e
  | inr e ↦ rw e (update_ne d.live (staged_path rand) q none (top-ne-staged q rand h))
]

-- What CreateStagedFile gives: the path made from the random bytes, and an empty file there.
pub create_staged_file-cases :
    (f : Faults) (rand : Bytes) (d : Disk)
    → (create_staged_file f rand d ≡ (ok (staged_path rand), fill (staged_path rand) [] d))
      ⊎ ((e : TransferError) × (create_staged_file f rand d ≡ (err e, d)))
unfolding create_staged_file
create_staged_file-cases f rand d = elim (Bool-cases f.make_dir) [
  | inl a ↦ inr (staging make_dir, rw a)
  | inr a ↦ elim (Bool-cases f.random_bytes) [
    | inl b ↦ inr (staging random_bytes, rw (a, b))
    | inr b ↦ elim (Bool-cases (f.open_file || is_some (d.live (staged_path rand)))) [
      | inl c ↦ inr (staging open_file, rw (a, b, c))
      | inr c ↦ inl (rw (a, b, c))
    ]
  ]
]

module _ (sum256 : Bytes → Bytes) (length-sum256 : (b : Bytes) → length (sum256 b) ≡ hash_size)
    (describe : TransferError → Bytes) (max_size : ℕ) where
  pub refuse-disk :
      (r : Round) (context : Bytes) (e : TransferError) (s : Session)
      → (refuse sum256 describe max_size r context e s).1.disk ≡ s.disk
  unfolding refuse
  refuse-disk r context e s = refl

  pub header_failed-disk :
      (r : Round) (e : TransferError) (s : Session)
      → (header_failed sum256 describe max_size r e s).1.disk ≡ s.disk
  unfolding header_failed refuse
  header_failed-disk r e s = elim (Bool-cases (ends_quietly e)) [ inl q ↦ rw q | inr q ↦ rw q ]

  pub after_commit-disk :
      (r : Round) (size : ℕ) (o : Result (Unit {0}) × Session)
      → (after_commit sum256 describe max_size r size o).1.disk ≡ o.1.disk
  unfolding after_commit refuse
  after_commit-disk r size (ok u, s) = refl
  after_commit-disk r size (err e, s) = refl

  -- The header of the message that the input begins with, if it is read.
  module _ (name : Bytes) (size : ℕ) (input : Bytes) (valid : validate_filename name ≡ ok tt) where
    delivered :
        (stream : Bytes) (file : Sink) (c : Copy)
        → input ≡ header_bytes name size ++ stream
        → IsReceived sum256 length-sum256 size stream file c
        → file.written ≡ []
        → IsDelivered sum256 input
            (target_path name)
            (some (record { content = c.dst.written; flushed = true }))
    delivered stream file c split got empty = record {
      name = name;
      content = got.content;
      before = [];
      behind = c.src.input;
      valid = valid;
      path_is = refl;
      message = rw (got.size_is) (split ∙ ap (◌++◌ (header_bytes name size)) got.splits);
      file_is =
          ap (λ (b : Bytes). some (record { content = b; flushed = true }))
            (got.written ∙ ap (λ (b : Bytes). b ++ got.content) empty);
    }

    -- The rest of a round, once the staged file is made; `s` is the state before that.
    after_stream-IsSafe :
        (r : Round) (s : Session) (o : Result (Unit {0}) × Copy) (file : Sink)
        → input ≡ header_bytes name size ++ s.src.input
        → receive_stream sum256 size (record { src = s.src; dst = file; hashed = [] }) ≡ o
        → file.written ≡ []
        → IsSafe sum256 input s.disk
            (after_stream sum256 describe max_size r (staged_path r.rand) name size s o).1.disk
    unfolding after_stream
    after_stream-IsSafe r s (err e, c) file split h empty q top =
        let left = fill (staged_path r.rand) c.dst.written s.disk in
        inl (
          ap (λ (d : Disk). d.live q) (refuse-disk r (codes "stream failure: ") e _)
          ∙ try_remove-top r.faults r.rand left q top
          ∙ fill-top r.rand c.dst.written s.disk q top)
    after_stream-IsSafe r s (ok u, c) file split h empty q top =
        let staged = staged_path r.rand in
        let s' : Session = record s { disk = fill staged c.dst.written s.disk; src = c.src } in
        let o = commit_barrier r.faults staged name s' in
        let disk_is = ap (λ (d : Disk). d.live q) (after_commit-disk r size o) in
        let got =
          receive_stream-IsReceived sum256 length-sum256 size s.src.input s.src.fault file c h in
        elim (commit_barrier-others r.faults staged name s' q (top-ne-staged q r.rand top)) [
          | inl same ↦ inl (disk_is ∙ same ∙ fill-top r.rand c.dst.written s.disk q top)
          | inr (here, content) ↦
              let file_is : s'.disk.live staged
                  ≡ some (record { content = c.dst.written; flushed = false }) =
                rw (same_path_refl staged) in
              inr (
                subst (IsDelivered sum256 input q) (sym (disk_is ∙ content ∙ ap flush file_is)) (
                  subst
                    (λ p.
                      IsDelivered sum256 input p
                        (some (record { content = c.dst.written; flushed = true })))
                    (sym here) (delivered s.src.input file c split got empty)))
        ]

    after_staging-IsSafe :
        (r : Round) (s : Session)
        → input ≡ header_bytes name size ++ s.src.input
        → IsSafe sum256 input s.disk
            (after_staging sum256 describe max_size r name size s
              (create_staged_file r.faults r.rand s.disk)).1.disk
    unfolding after_staging
    after_staging-IsSafe r s split q top = elim (create_staged_file-cases r.faults r.rand s.disk) [
      | inl made ↦
          let d = fill (staged_path r.rand) [] s.disk in
          let file : Sink = record { written = []; room = r.faults.room; fault = IoError.broken } in
          let rest =
            after_stream-IsSafe r (record s { disk = d })
              (receive_stream sum256 size (record { src = s.src; dst = file; hashed = [] })) file
              split refl refl q top in
          rw made (before_staging (fill-top r.rand [] s.disk q top) rest)
      | inr (e, failed) ↦ rw failed (
          inl (
            ap (λ (d : Disk). d.live q)
              (refuse-disk r (codes "internal error creating staging file: ") e s)))
    ]

  after_header-IsSafe :
      (r : Round) (s : Session) (o : Result (Bytes × ℕ) × Source)
      → IsBytes s.src.input
      → read_request_header max_size s.src ≡ o
      → IsSafe sum256 s.src.input s.disk (after_header sum256 describe max_size r s o).1.disk
  unfolding after_header
  after_header-IsSafe r s (err e, src) bytes h q top =
      inl (ap (λ (d : Disk). d.live q) (header_failed-disk r e (record s { src = src })))
  after_header-IsSafe r s (ok (name, size), src) bytes h q top =
      let header = read_request_header-IsHeader max_size s.src name size src bytes h in
      after_staging-IsSafe name size s.src.input header.valid r (record s { src = src })
        header.canonical q top

  -- One round: each file of the incoming directory is as it was, or is the content of a message that
  -- is on the stream, complete and with its digest.
  pub serve-IsSafe :
      (r : Round) (s : Session)
      → IsBytes s.src.input
      → IsSafe sum256 s.src.input s.disk (serve sum256 describe max_size r s).1.disk
  unfolding serve
  serve-IsSafe r s bytes = after_header-IsSafe r s (read_request_header max_size s.src) bytes refl
