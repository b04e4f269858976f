-- ===== src/Sender/Transfer/EndToEnd.antt =====
-- The two ends together: what transferFile of internal/sender/client.go sends, handleConnection of
-- internal/receiver/listener.go commits and acknowledges.
use go_xport.Common.{
  ℕ, ◌+◌, ◌-◌, ◌^◌, ◌≤◌, ◌<◌, ◌≡◌, refl, sym, ap, ◌∙◌, subst, false, [], ◌∷◌, ◌++◌, Bytes, some,
  arith, length, append_assoc, append-nil, equal_refl,
}
use go_xport.Monitor.Tracker.{record_success}
use go_xport.Receiver.Commit.{Session, commit_barrier}
use go_xport.Receiver.Commit.Branches.{committed}
use go_xport.Receiver.Commit.Durability.{
  IsHealthy, IsDurable, committed-IsDurable, commit_barrier_lem,
}
use go_xport.Receiver.Connection.{
  Round, Next, stay, serve, after_header, after_staging, after_stream, after_commit,
}
use go_xport.Receiver.Disk.{Disk, File, FilePath, Faults, fill, same_path_refl}
use go_xport.Receiver.Stager.{create_staged_file, staged_path, is_some}
use go_xport.Sender.Transfer.{Link, transfer_file}
use go_xport.Wire.Filename.{validate_filename}
use go_xport.Wire.Header.{header_bytes, read_request_header}
use go_xport.Wire.Header.RoundTrip.{Admits, read_request_header_lem}
use go_xport.Wire.Io.{Result, ok, TransferError, IoError, Source, Sink, read_full}
use go_xport.Wire.Response.{ack_byte, respond, read_response}
use go_xport.Wire.Stream.{Copy, hash_size, receive_stream}
use go_xport.Wire.Stream.Integrity.{ends, receive_stream_lem}
use go_xport.Sender.Transfer.Sends.{message, settled, transfer_file_lem}

create_staged_file_lem :
    (f : Faults) (rand : Bytes) (d : Disk)
    → IsHealthy f
    → is_some (d.live (staged_path rand)) ≡ false
    → create_staged_file f rand d ≡ (ok (staged_path rand), fill (staged_path rand) [] d)
unfolding create_staged_file
create_staged_file_lem f rand d h fresh = rw (h.make_dir, h.random_bytes, h.open_file, fresh)

read_response-acked : (back : Source) → back.input ≡ ack_byte ∷ [] → (read_response back).0 ≡ ok tt
unfolding read_response respond read_full
read_response-acked back e = rw e

module _ (sum256 : Bytes → Bytes)
    (length-sum256 : (b : Bytes) → length (sum256 b) ≡ hash_size) where
  module _ (describe : TransferError → Bytes) (max_size : ℕ) where
    after_header-staged :
        (r : Round) (s : Session) (name : Bytes) (size : ℕ) (src : Source)
        {o : Result FilePath × Disk}
        → create_staged_file r.faults r.rand s.disk ≡ o
        → after_header sum256 describe max_size r s (ok (name, size), src)
          ≡ after_staging sum256 describe max_size r name size (record s { src = src }) o
    unfolding after_header
    after_header-staged r s name size src e =
        ap (after_staging sum256 describe max_size r name size (record s { src = src })) e

    after_staging-streamed :
        (r : Round) (name : Bytes) (size : ℕ) (s : Session) (staged : FilePath) (d : Disk)
        {o : Result (Unit {0}) × Copy}
        → receive_stream sum256 size (
            ends s.src.input s.src.fault
              (record { written = []; room = r.faults.room; fault = IoError.broken }))
          ≡ o
        → after_staging sum256 describe max_size r name size s (ok staged, d)
          ≡ after_stream sum256 describe max_size r staged name size (record s { disk = d }) o
    unfolding after_staging
    after_staging-streamed r name size s staged d e =
        ap (after_stream sum256 describe max_size r staged name size (record s { disk = d })) e

    after_stream-committed :
        (r : Round) (name : Bytes) (size : ℕ) (s : Session) (staged : FilePath) (c : Copy)
        {o : Result (Unit {0}) × Session}
        → commit_barrier r.faults staged name
            (record s { disk = fill staged c.dst.written s.disk; src = c.src })
          ≡ o
        → after_stream sum256 describe max_size r staged name size s (ok tt, c)
          ≡ after_commit sum256 describe max_size r size o
    unfolding after_stream
    after_stream-committed r name size s staged c e =
        ap (after_commit sum256 describe max_size r size) e

    -- A receiver whose calls do not fail commits the message that begins its input: the file is
    -- durable under its name, one ACK is sent, the file is counted, and the stream stands behind
    -- the message. The staged name is free, there is room for the file and the ACK, the name is
    -- valid, and the size is below 2^63 and within the limit.
    pub serve-message :
        (r : Round) (s : Session) (name content rest : Bytes) (fault : IoError)
        → IsHealthy r.faults
        → is_some (s.disk.live (staged_path r.rand)) ≡ false
        → length content ≤ r.faults.room
        → 1 ≤ s.dst.room
        → validate_filename name ≡ ok tt
        → length content < 2 ^ 63
        → Admits max_size (length content)
        → s.src
          ≡ record { input = message sum256 length-sum256 name content ++ rest; fault = fault }
        → (t : Session) × (serve sum256 describe max_size r s ≡ (stay, t))
          × IsDurable t.disk name content
          × (t.dst.written ≡ s.dst.written ++ (ack_byte ∷ []))
          × (t.src ≡ record { input = rest; fault = fault })
          × (t.tracker ≡ record_success r.now (length content) s.tracker)
    unfolding serve after_commit
    serve-message r s name content rest fault healthy fresh room answer valid small admits input =
        let size = length content in
        let staged = staged_path r.rand in
        let s1 : Session = record s {
          disk = fill staged content (fill staged [] s.disk);
          src = record { input = rest; fault = fault };
        } in
        let t : Session = record (committed staged name s1) {
          tracker = record_success r.now size s.tracker;
        } in
        let file : File = record { content = content; flushed = false } in
        let there : s1.disk.live staged ≡ some file = rw (same_path_refl staged) in
        let stream = content ++ (sum256 content ++ rest) in
        let split =
          append_assoc (header_bytes name size) (content ++ sum256 content) rest
          ∙ ap (◌++◌ (header_bytes name size)) (append_assoc content (sum256 content) rest) in
        let header : read_request_header max_size s.src
            ≡ (ok (name, size), record { input = stream; fault = fault }) =
          ap (read_request_header max_size)
            (input ∙ ap (λ (b : Bytes). record { input = b; fault = fault }) split)
          ∙ read_request_header_lem name size max_size stream fault valid (omega arith) admits in
        let file_sink : Sink = record {
          written = [];
          room = r.faults.room;
          fault = IoError.broken;
        } in
        let received = rw (equal_refl (sum256 content)) at (
          receive_stream_lem sum256 length-sum256 content (sum256 content) rest fault file_sink
            (length-sum256 content) small room) in
        let staged_src : Session = record s { src = record { input = stream; fault = fault } } in
        let made : Disk = fill staged [] s.disk in
        let done : Copy = record {
          src = record { input = rest; fault = fault };
          dst = record { written = content; room = r.faults.room - size; fault = IoError.broken };
          hashed = content;
        } in
        let run =
          ap (after_header sum256 describe max_size r s) header
          ∙ after_header-staged r s name size _
              (create_staged_file_lem r.faults r.rand s.disk healthy fresh)
          ∙ after_staging-streamed r name size staged_src staged made {o = (ok tt, done)} received
          ∙ after_stream-committed r name size (record staged_src { disk = made }) staged done
              (commit_barrier_lem r.faults staged name s1 file healthy there answer) in
        (t, run, committed-IsDurable staged name s1 file there, refl, refl, refl)

    -- The two daemons over a new connection: the receiver serves the bytes that transferFile
    -- writes, and transferFile reads the bytes that the receiver answers. If no call fails, the
    -- staged name is free, there is room on the connection, the disk and for the answer, the name
    -- is valid, and the size is below 2^63 and within the limit, then the file is durable at the
    -- receiver, nothing is left on the stream, and transferFile returns nil.
    pub transfer_file-serve :
        (r : Round) (s : Session) (name content : Bytes) (l : Link)
        → IsHealthy r.faults
        → is_some (s.disk.live (staged_path r.rand)) ≡ false
        → length content ≤ r.faults.room
        → 1 ≤ s.dst.room
        → length name + 14 + (length content + hash_size) ≤ l.out.room
        → validate_filename name ≡ ok tt
        → length content < 2 ^ 63
        → Admits max_size (length content)
        → l.out.written ≡ []
        → s.dst.written ≡ []
        → s.src.input
          ≡ (transfer_file sum256
              (some (settled sum256 length-sum256 content))
              name
              l).1.out.written
        → l.back.input ≡ (serve sum256 describe max_size r s).1.dst.written
        → IsDurable (serve sum256 describe max_size r s).1.disk name content
          × ((serve sum256 describe max_size r s).1.src.input ≡ [])
          × ((transfer_file sum256 (some (settled sum256 length-sum256 content)) name l).0 ≡ ok tt)
    transfer_file-serve r s name content l healthy fresh room answer out_room valid small admits e1
          e2 sent answered =
        let (out, out_is, run) =
          transfer_file_lem sum256 length-sum256 name content l valid out_room in
        let wrote : s.src.input ≡ message sum256 length-sum256 name content =
          sent
          ∙ ap (λ (o : Result (Unit {0}) × Link). o.1.out.written) run
          ∙ out_is
          ∙ ap (λ (b : Bytes). b ++ message sum256 length-sum256 name content) e1 in
        let (t, served, durable, acked, left, _) =
          serve-message r s name content [] s.src.fault healthy fresh room answer valid small admits
            (ap (λ (b : Bytes). record { input = b; fault = s.src.fault })
              (wrote ∙ sym (append-nil (message sum256 length-sum256 name content)))) in
        let back_is : l.back.input ≡ ack_byte ∷ [] =
          answered
          ∙ ap (λ (o : Next × Session). o.1.dst.written) served
          ∙ acked
          ∙ ap (λ (b : Bytes). b ++ (ack_byte ∷ [])) e2 in
        (
          subst (λ (o : Next × Session). IsDurable o.1.disk name content) (sym served) durable,
          ap (λ (o : Next × Session). o.1.src.input) served ∙ ap (λ (s : Source). s.input) left,
          ap (λ (o : Result (Unit {0}) × Link). o.0) run ∙ read_response-acked l.back back_is,
        )
