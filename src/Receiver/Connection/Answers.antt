-- ===== src/Receiver/Connection/Answers.antt =====
-- What the handler answers and counts, round by round: handleConnection of
-- internal/receiver/listener.go.
use go_xport.Common.{
  zero, suc, ◌≢◌, arith, ℕ, ◌≡◌, ◌⊎◌, inl, inr, refl, sym, ap, ◌∙◌, subst, [], ◌∷◌, ◌++◌,
  append_assoc, append-nil, Bytes, IsBytes, Bool-cases, length, take, codes, leb,
}
use go_xport.Monitor.Tracker.{record_error, record_success}
use go_xport.Receiver.Disk.{Disk, FilePath, fill}
use go_xport.Receiver.Stager.{create_staged_file}
use go_xport.Receiver.Commit.{Session, commit_barrier}
use go_xport.Receiver.Commit.Branches.{committed, Unanswered, commit_barrier-Outcome}
use go_xport.Receiver.Connection.{
  Round, Next, stay, leave, refuse, header_failed, ends_quietly, after_commit, after_stream,
  after_staging, after_header, serve,
}
use go_xport.Wire.Header.{header_bytes, read_request_header}
use go_xport.Wire.Header.Canonical.{read_request_header-IsHeader}
use go_xport.Wire.Io.{Result, ok, err, TransferError, IoError, Source, Sink, write}
use go_xport.Wire.Outcome.{Outcome}
use go_xport.Wire.Response.{write_nack, nack_bytes, ack_byte}
use go_xport.Wire.Stream.{Copy, hash_size, receive_stream}
use go_xport.Wire.Stream.Integrity.{receive_stream-IsReceived}

-- `rest` is what is left of `input`.
abbrev pub IsRest : Bytes → Bytes → Type 0
IsRest rest input = (before : Bytes) × (input ≡ before ++ rest)

-- The answer is not an ACK.
abbrev pub NoAck : Bytes → Type 0
NoAck [] = Unit {0}
NoAck (b ∷ bs) = b ≢ ack_byte

NoAck-take : (n : ℕ) (b : Bytes) → NoAck b → NoAck (take n b)
NoAck-take zero b h = tt
NoAck-take (suc n) [] h = tt
NoAck-take (suc n) (b ∷ bs) h = h

nack_bytes-NoAck : (msg : Bytes) → NoAck (nack_bytes msg)
unfolding nack_bytes
nack_bytes-NoAck msg = λ e. absurd (omega arith)

-- A round that goes on has sent one ACK and counted one file; one that returns has sent and counted
-- nothing, or has sent no ACK and counted one error.
pub record HasAccepted (now : ℕ) (input : Bytes) (s t : Session) : Type 0 where
  pub size : ℕ
  pub sent : t.dst.written ≡ s.dst.written ++ (ack_byte ∷ [])
  pub counted : t.tracker ≡ record_success now size s.tracker
  pub rest : IsRest t.src.input input

pub record HasRefused (now : ℕ) (s t : Session) : Type 0 where
  pub answer : Bytes
  pub sent : t.dst.written ≡ s.dst.written ++ answer
  pub no_ack : NoAck answer
  pub counted : ((answer ≡ []) × (t.tracker ≡ s.tracker)) ⊎ (t.tracker ≡ record_error now s.tracker)

abbrev pub Answers : ℕ → Bytes → Session → Next × Session → Type 0
Answers now input s (stay, t) = HasAccepted now input s t
Answers now input s (leave, t) = HasRefused now s t

-- Only what was answered and counted before matters.
Answers-same :
    (now : ℕ) (input : Bytes) (s s' : Session) (o : Next × Session)
    → s'.dst.written ≡ s.dst.written
    → s'.tracker ≡ s.tracker
    → Answers now input s' o
    → Answers now input s o
Answers-same now input s s' (stay, t) same counters h = record {
  size = h.size;
  sent = h.sent ∙ ap (λ (b : Bytes). b ++ (ack_byte ∷ [])) same;
  counted = h.counted ∙ ap (record_success now h.size) counters;
  rest = h.rest;
}
Answers-same now input s s' (leave, t) same counters h = record {
  answer = h.answer;
  sent = h.sent ∙ ap (λ (b : Bytes). b ++ h.answer) same;
  no_ack = h.no_ack;
  counted = elim h.counted [
    | inl (nothing, kept) ↦ inl (nothing, kept ∙ counters)
    | inr e ↦ inr (e ∙ ap (record_error now) counters)
  ];
}

pub write_nack-extends :
    (msg : Bytes) (d : Sink)
    → (x : Bytes) × NoAck x × ((write_nack msg d).1.written ≡ d.written ++ x)
unfolding write write_nack
write_nack-extends msg d = elim (Bool-cases (leb (length (nack_bytes msg)) d.room)) [
  | inl e ↦ (nack_bytes msg, nack_bytes-NoAck msg, rw e)
  | inr e ↦ (
    take d.room (nack_bytes msg),
    NoAck-take d.room (nack_bytes msg) (nack_bytes-NoAck msg),
    rw e,
  )
]

module _ (sum256 : Bytes → Bytes) (length-sum256 : (b : Bytes) → length (sum256 b) ≡ hash_size)
    (describe : TransferError → Bytes) (max_size : ℕ) where
  -- A refusal, in a state whose answers and counters are those of `s`.
  refuse-HasRefused :
      (r : Round) (context : Bytes) (e : TransferError) (s t : Session)
      → t.dst.written ≡ s.dst.written
      → t.tracker ≡ s.tracker
      → HasRefused r.now s (refuse sum256 describe max_size r context e t).1
  unfolding refuse
  refuse-HasRefused r context e s t same counters =
      let (x, no_ack, sent) = write_nack-extends (context ++ describe e) t.dst in
      record {
        answer = x;
        sent = sent ∙ ap (λ (b : Bytes). b ++ x) same;
        no_ack = no_ack;
        counted = inr (ap (record_error r.now) counters);
      }

  refuse-Answers :
      (r : Round) (context : Bytes) (e : TransferError) (input : Bytes) (s t : Session)
      → t.dst.written ≡ s.dst.written
      → t.tracker ≡ s.tracker
      → Answers r.now input s (refuse sum256 describe max_size r context e t)
  unfolding refuse
  refuse-Answers r context e input s t same counters =
      unfold refuse in refuse-HasRefused r context e s t same counters

  header_failed-Answers :
      (r : Round) (e : TransferError) (input : Bytes) (s t : Session)
      → t.dst.written ≡ s.dst.written
      → t.tracker ≡ s.tracker
      → Answers r.now input s (header_failed sum256 describe max_size r e t)
  unfolding header_failed
  header_failed-Answers r e input s t same counters = elim (Bool-cases (ends_quietly e)) [
    | inl quiet ↦ rw quiet (record {
      answer = [];
      sent = same ∙ sym (append-nil s.dst.written);
      no_ack = tt;
      counted = inl (refl, counters);
    })
    | inr loud ↦ rw loud (refuse-Answers r [] e input s t same counters)
  ]

  after_commit-Answers :
      (r : Round) (size : ℕ) (input : Bytes) (staged : FilePath) (filename : Bytes) (s : Session)
      → IsRest s.src.input input
      → (o : Result (Unit {0}) × Session)
      → Outcome (λ t. t ≡ committed staged filename s) (Unanswered staged filename s) o
      → Answers r.now input s (after_commit sum256 describe max_size r size o)
  unfolding after_commit
  after_commit-Answers r size input staged filename s rest (ok u, t) done = record {
    size = size;
    sent = ap (λ (x : Session). x.dst.written) done;
    counted = ap (λ (x : Session). record_success r.now size x.tracker) done;
    rest = subst (λ (x : Session). IsRest x.src.input input) (sym done) rest;
  }
  after_commit-Answers r size input staged filename s rest (err e, t) failed =
      refuse-Answers r (codes "commit barrier failure: ") e input s t failed.silent failed.uncounted

  -- A known message: the stream holds what follows the header of `input`.
  module _ (name : Bytes) (size : ℕ) (input : Bytes) where
    after_stream-Answers :
        (r : Round) (staged : FilePath) (s : Session) (o : Result (Unit {0}) × Copy) (file : Sink)
        → input ≡ header_bytes name size ++ s.src.input
        → receive_stream sum256 size (record { src = s.src; dst = file; hashed = [] }) ≡ o
        → Answers r.now input s (after_stream sum256 describe max_size r staged name size s o)
    unfolding after_stream
    after_stream-Answers r staged s (err e, c) file split h =
        refuse-Answers r (codes "stream failure: ") e input s _ refl refl
    after_stream-Answers r staged s (ok u, c) file split h =
        let got =
          receive_stream-IsReceived sum256 length-sum256 size s.src.input s.src.fault file c h in
        let s' : Session = record s { disk = fill staged c.dst.written s.disk; src = c.src } in
        let front = header_bytes name size ++ (got.content ++ sum256 got.content) in
        let rest : IsRest c.src.input input = (
          front,
          split
              ∙ ap (◌++◌ (header_bytes name size))
                  (got.splits ∙ sym (append_assoc got.content (sum256 got.content) c.src.input))
              ∙ sym (
                  append_assoc (header_bytes name size) (got.content ++ sum256 got.content)
                    c.src.input),
        ) in
        let commit = commit_barrier r.faults staged name s' in
        Answers-same r.now input s s' (after_commit sum256 describe max_size r size commit) refl
          refl
          (after_commit-Answers r size input staged name s' rest commit
            (commit_barrier-Outcome r.faults staged name s'))

    after_staging-Answers :
        (r : Round) (s : Session) (o : Result FilePath × Disk)
        → input ≡ header_bytes name size ++ s.src.input
        → Answers r.now input s (after_staging sum256 describe max_size r name size s o)
    unfolding after_staging
    after_staging-Answers r s (err e, d) split =
        refuse-Answers r (codes "internal error creating staging file: ") e input s _ refl refl
    after_staging-Answers r s (ok staged, d) split =
        let file : Sink = record { written = []; room = r.faults.room; fault = IoError.broken } in
        let s' : Session = record s { disk = d } in
        let received =
          receive_stream sum256 size (record { src = s.src; dst = file; hashed = [] }) in
        Answers-same r.now input s s'
          (after_stream sum256 describe max_size r staged name size s' received) refl refl
          (after_stream-Answers r staged s' received file split refl)

  after_header-Answers :
      (r : Round) (s : Session) (o : Result (Bytes × ℕ) × Source)
      → IsBytes s.src.input
      → read_request_header max_size s.src ≡ o
      → Answers r.now s.src.input s (after_header sum256 describe max_size r s o)
  unfolding after_header
  after_header-Answers r s (err e, src) bytes h =
      header_failed-Answers r e s.src.input s (record s { src = src }) refl refl
  after_header-Answers r s (ok (name, size), src) bytes h =
      let header = read_request_header-IsHeader max_size s.src name size src bytes h in
      let s' : Session = record s { src = src } in
      let made = create_staged_file r.faults r.rand s.disk in
      Answers-same r.now s.src.input s s'
        (after_staging sum256 describe max_size r name size s' made) refl refl
        (after_staging-Answers name size s.src.input r s' made header.canonical)

  -- One round, on every branch.
  pub serve-Answers :
      (r : Round) (s : Session)
      → IsBytes s.src.input
      → Answers r.now s.src.input s (serve sum256 describe max_size r s)
  unfolding serve
  serve-Answers r s bytes = after_header-Answers r s (read_request_header max_size s.src) bytes refl
