-- ===== src/Sender/Transfer/Sends.antt =====
-- What transferFile of internal/sender/client.go sends for a file, and what it returns.
use go_xport.Common.{◌+◌, ◌-◌, ◌≤◌, ◌≡◌, ap, ◌++◌, Bytes, some, arith, length, append_assoc}
use go_xport.Sender.Transfer.{Link, OpenFile, stream_file, send_file, transfer_file}
use go_xport.Wire.Filename.{validate_filename}
use go_xport.Wire.Header.{header_bytes}
use go_xport.Wire.Header.RoundTrip.{length-header_bytes, write_request_header_lem}
use go_xport.Wire.Io.{Result, ok, IoError, Sink}
use go_xport.Wire.Response.{read_response}
use go_xport.Wire.Stream.{Copy, hash_size}
use go_xport.Wire.Stream.Integrity.{send_stream_lem}

module _ (sum256 : Bytes → Bytes)
    (length-sum256 : (b : Bytes) → length (sum256 b) ≡ hash_size) where
  -- Everything that is sent for one file.
  abbrev pub message : Bytes → Bytes → Bytes
  message name content = header_bytes name (length content) ++ (content ++ sum256 content)

  -- A file on the sender's disk that is not being written.
  abbrev pub settled : Bytes → OpenFile
  settled content = record {
    stat_size = some (length content);
    stream = record { input = content; fault = IoError.eof };
  }

  stream_file_lem :
      (content : Bytes) (out : Sink)
      → length content + hash_size ≤ out.room
      → stream_file sum256 (length content) (settled content).stream out ≡ (
        ok (sum256 content),
        record out {
          written = out.written ++ (content ++ sum256 content);
          room = out.room - (length content + hash_size);
        },
      )
  unfolding stream_file
  stream_file_lem content out room =
      ap (λ (o : Result Bytes × Copy). let (r, c) = o in (r, c.dst))
        (send_stream_lem sum256 length-sum256 content out room)

  -- A file with a valid name that is not being written goes out as one message, the header, the
  -- content and the digest, if the connection has room for it, and transferFile then returns what
  -- ReadResponse does.
  pub transfer_file_lem :
      (name content : Bytes) (l : Link)
      → validate_filename name ≡ ok tt
      → length name + 14 + (length content + hash_size) ≤ l.out.room
      → (out : Sink) × (out.written ≡ l.out.written ++ message name content)
        × (transfer_file sum256 (some (settled content)) name l
            ≡ (let (r, back) = read_response l.back in (r, record { out = out; back = back })))
  unfolding transfer_file send_file
  transfer_file_lem name content l valid room =
      let size = length content in
      let header = header_bytes name size in
      let out1 : Sink = record l.out {
        written = l.out.written ++ header;
        room = l.out.room - length header;
      } in
      let out2 : Sink = record out1 {
        written = out1.written ++ (content ++ sum256 content);
        room = out1.room - (size + hash_size);
      } in
      (
        out2,
        append_assoc l.out.written header (content ++ sum256 content),
        rw (
          write_request_header_lem name size l.out valid (omega arith),
          stream_file_lem content out1 (omega (arith, length-header_bytes name size)),
        ),
      )
