-- ===== src/Sender/Transfer/Acknowledged.antt =====
-- The two ends together, whichever calls fail at the receiver: transferFile of
-- internal/sender/client.go returns nil only for a file that handleConnection of
-- internal/receiver/listener.go has made durable.
use go_xport.Common.{
  ℕ, ◌+◌, ◌^◌, ◌≤◌, ◌<◌, ◌≡◌, refl, sym, ap, ◌∙◌, subst, [], ◌∷◌, ◌++◌, Bytes, IsBytes, some, arith,
  length, false, take, take-append, codes,
}
use go_xport.Receiver.Commit.{Session, commit_barrier}
use go_xport.Receiver.Commit.Durability.{IsDurable, commit_barrier-IsDurable}
use go_xport.Receiver.Connection.{
  Round, Next, stay, leave, serve, after_header, after_staging, after_stream, after_commit, refuse,
}
use go_xport.Receiver.Connection.Answers.{Answers, NoAck, serve-Answers}
use go_xport.Receiver.Disk.{Disk, FilePath, fill, same_path_refl}
use go_xport.Receiver.Stager.{create_staged_file}
use go_xport.Sender.Transfer.{Link, transfer_file}
use go_xport.Sender.Transfer.Sends.{message, settled, transfer_file_lem}
use go_xport.Wire.Filename.{validate_filename}
use go_xport.Wire.Header.{header_bytes, read_request_header}
use go_xport.Wire.Header.RoundTrip.{Admits, read_request_header_lem}
use go_xport.Wire.Io.{Result, ok, err, TransferError, IoError, Source, Sink, read_full}
use go_xport.Wire.Response.{ack_byte, read_response}
use go_xport.Wire.Response.RoundTrip.{read_response-ack}
use go_xport.Wire.Stream.{Copy, hash_size, receive_stream}
use go_xport.Wire.Stream.Integrity.{receive_stream-IsReceived}

-- A round that goes on has made the file durable.
abbrev Commits : Bytes → Bytes → Next × Session → Type 0
Commits name content (stay, t) = IsDurable t.disk name content
Commits name content (leave, t) = Unit {0}

-- Two texts of the same length with the same text in front.
same_front : (a b c d : Bytes) → a ++ b ≡ c ++ d → length a ≡ length c → a ≡ c
same_front a b c d e len =
    sym (take-append a b) ∙ ap (take (length a)) e ∙ ap (λ n. take n (c ++ d)) len ∙ take-append c d

module _ (sum256 : Bytes → Bytes) (length-sum256 : (b : Bytes) → length (sum256 b) ≡ hash_size)
    (describe : TransferError → Bytes) (max_size : ℕ) (name content : Bytes) where
  refuse-Commits :
      (r : Round) (context : Bytes) (e : TransferError) (s : Session)
      → Commits name content (refuse sum256 describe max_size r context e s)
  unfolding refuse
  refuse-Commits r context e s = tt

  after_commit-Commits :
      (r : Round) (size : ℕ) (o : Result (Unit {0}) × Session)
      → ((t : Session) → o ≡ (ok tt, t) → IsDurable t.disk name content)
      → Commits name content (after_commit sum256 describe max_size r size o)
  unfolding after_commit
  after_commit-Commits r size (ok _, t) h = h t refl
  after_commit-Commits r size (err e, t) h = refuse-Commits r (codes "commit barrier failure: ") e t

  after_stream-Commits :
      (r : Round) (staged : FilePath) (size : ℕ) (s : Session) (o : Result (Unit {0}) × Copy)
      → ((c : Copy) → o ≡ (ok tt, c) → c.dst.written ≡ content)
      → Commits name content (after_stream sum256 describe max_size r staged name size s o)
  unfolding after_stream
  after_stream-Commits r staged size s (err e, c) h =
      refuse-Commits r (codes "stream failure: ") e _
  after_stream-Commits r staged size s (ok _, c) h =
      let s' : Session = record s { disk = fill staged c.dst.written s.disk; src = c.src } in
      after_commit-Commits r size (commit_barrier r.faults staged name s') (λ t run.
        subst (IsDurable t.disk name) (h c refl)
          (commit_barrier-IsDurable r.faults staged name s' t
            (record { content = c.dst.written; flushed = false }) (rw (same_path_refl staged) refl)
            run).0)

  after_staging-Commits :
      (r : Round) (s : Session) (rest : Bytes) (o : Result FilePath × Disk)
      → s.src.input ≡ content ++ rest
      → Commits name content (after_staging sum256 describe max_size r name (length content) s o)
  unfolding after_staging
  after_staging-Commits r s rest (err e, d) split =
      refuse-Commits r (codes "internal error creating staging file: ") e _
  after_staging-Commits r s rest (ok staged, d) split =
      let file : Sink = record { written = []; room = r.faults.room; fault = IoError.broken } in
      after_stream-Commits r staged (length content) (record s { disk = d })
        (receive_stream sum256 (length content) (record { src = s.src; dst = file; hashed = [] }))
        (λ c run.
          let got =
            receive_stream-IsReceived sum256 length-sum256 (length content) s.src.input s.src.fault
              file c run in
          got.written
          ∙ same_front got.content (sum256 got.content ++ c.src.input) content rest
              (sym got.splits ∙ split) got.size_is)

  -- A round over the message, whichever calls fail.
  serve-Commits :
      (r : Round) (s : Session) (rest : Bytes) (fault : IoError)
      → validate_filename name ≡ ok tt
      → length content < 2 ^ 64
      → Admits max_size (length content)
      → s.src
        ≡ record { input = header_bytes name (length content) ++ (content ++ rest); fault = fault }
      → Commits name content (serve sum256 describe max_size r s)
  unfolding serve after_header
  serve-Commits r s rest fault valid small admits input =
      let header =
        ap (read_request_header max_size) input
        ∙ read_request_header_lem name (length content) max_size (content ++ rest) fault valid small
            admits in
      subst (λ o. Commits name content (after_header sum256 describe max_size r s o)) (sym header)
        (after_staging-Commits r _ rest (create_staged_file r.faults r.rand s.disk) refl)

  -- Answers that begin with an ACK come from a round that goes on.
  acked-Commits :
      (now : ℕ) (input rest : Bytes) (s : Session) (o : Next × Session)
      → s.dst.written ≡ []
      → o.1.dst.written ≡ ack_byte ∷ rest
      → Answers now input s o
      → Commits name content o
      → IsDurable o.1.disk name content
  acked-Commits now input rest s (stay, t) nothing acked answers commits = commits
  acked-Commits now input rest s (leave, t) nothing acked answers commits =
      let only : answers.answer ≡ ack_byte ∷ rest =
        sym (answers.sent ∙ ap (λ (b : Bytes). b ++ answers.answer) nothing) ∙ acked in
      absurd (subst NoAck only answers.no_ack refl)

  answered-ack :
      (input : Bytes) (back : Source)
      → back.input ≡ input
      → (read_response back).0 ≡ ok tt
      → (rest : Bytes) × (input ≡ ack_byte ∷ rest)
  unfolding read_response read_full
  answered-ack [] back e h = absurd (
      let none_read =
        ap (λ (b : Bytes). (read_response (record { input = b; fault = back.fault })).0) (sym e)
        ∙ h in
      ground arith)
  answered-ack (code ∷ rest) back e h =
      let got = read_response (record { input = code ∷ rest; fault = back.fault }) in
      let same : got.0 ≡ ok tt =
        ap (λ (b : Bytes). (read_response (record { input = b; fault = back.fault })).0) (sym e)
        ∙ h in
      (
        rest,
        ap (λ c. c ∷ rest)
            (read_response-ack code rest back.fault got.1 (ap (λ o. (o, got.1)) same)).0,
      )

  -- Whichever calls of the receiver fail, transferFile returns nil for a file over a new connection
  -- only if the receiver's round has made the file durable under its name. The receiver is given
  -- the bytes that transferFile writes, and transferFile the bytes that the receiver answers; the
  -- name is valid, the file is not being written, its size is below 2^64 and within the receiver's
  -- limit, the connection takes the whole message, and a digest has 32 bytes.
  pub transfer_file-IsDurable :
      (r : Round) (s : Session) (l : Link)
      → length name + 14 + (length content + hash_size) ≤ l.out.room
      → validate_filename name ≡ ok tt
      → length content < 2 ^ 64
      → Admits max_size (length content)
      → IsBytes s.src.input
      → l.out.written ≡ []
      → s.dst.written ≡ []
      → s.src.input
        ≡ (transfer_file sum256 (some (settled sum256 length-sum256 content)) name l).1.out.written
      → l.back.input ≡ (serve sum256 describe max_size r s).1.dst.written
      → (transfer_file sum256 (some (settled sum256 length-sum256 content)) name l).0 ≡ ok tt
      → IsDurable (serve sum256 describe max_size r s).1.disk name content
  transfer_file-IsDurable r s l out_room valid small admits bytes e1 e2 sent answered done =
      let (out, out_is, run) =
        transfer_file_lem sum256 length-sum256 name content l valid out_room in
      let wrote : s.src.input ≡ message sum256 length-sum256 name content =
        sent
        ∙ ap (λ (o : Result (Unit {0}) × Link). o.1.out.written) run
        ∙ out_is
        ∙ ap (λ (b : Bytes). b ++ message sum256 length-sum256 name content) e1 in
      let (rest, acked) =
        answered-ack l.back.input l.back refl
          (sym (ap (λ (o : Result (Unit {0}) × Link). o.0) run) ∙ done) in
      acked-Commits r.now s.src.input rest s (serve sum256 describe max_size r s) e2
        (sym answered ∙ acked) (serve-Answers sum256 length-sum256 describe max_size r s bytes)
        (serve-Commits r s (sum256 content) s.src.fault valid small admits
          (ap (λ (b : Bytes). record { input = b; fault = s.src.fault }) wrote))
