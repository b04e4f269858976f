-- ===== src/Tests/Wire.antt =====
-- The wire protocol at concrete inputs.
use go_xport.Common.{
  ◌≡◌, ◌↔◌, refl, inr, [], ◌∷◌, ◌++◌, Bytes, codes, arith, some, length, if◌then◌else◌, equal,
}
use go_xport.Tests.Data.{toy_sum, length-toy_sum, shard, content}
use go_xport.Wire.BigEndian.{uint}
use go_xport.Wire.Filename.{validate_filename, is_name_byte}
use go_xport.Wire.Filename.Accepts.{IsPortable, validate_filename_iff}
use go_xport.Wire.Header.{
  header_bytes, read_request_header, read_magic, read_name, read_name_of, read_size,
}
use go_xport.Wire.Header.Canonical.{IsHeader, read_request_header-IsHeader}
use go_xport.Wire.Header.RoundTrip.{read_request_header_lem}
use go_xport.Wire.Io.{
  write, ok, err, IoError, Source, Sink, receiver_nack, checksum_mismatch, invalid_filename,
  path_separator, temporary_suffix, read_full,
}
use go_xport.Wire.Response.{nack_bytes, read_response, respond, clip}
use go_xport.Wire.Response.RoundTrip.{read_response-nack}
use go_xport.Wire.Stream.{Copy, receive_stream, check_trailer, copy_buffer, copy_loop}
use go_xport.Wire.Stream.Copying.{copy_buffer_lem, copied_all}
use go_xport.Wire.Stream.Integrity.{ends, receive_stream_lem, receive_stream-IsReceived, IsReceived}

shard_valid : validate_filename shard ≡ ok tt
unfolding validate_filename is_name_byte
shard_valid = refl

names :
    (validate_filename (codes "shard.tmp") ≡ err (invalid_filename temporary_suffix))
    × (validate_filename (codes "../shard.tar") ≡ err (invalid_filename path_separator))
unfolding validate_filename
names = (refl, refl)

validate_filename_iff_example : (validate_filename shard ≡ ok tt) ↔ IsPortable shard
validate_filename_iff_example = validate_filename_iff shard

abbrev sink : Sink
sink = record { written = []; room = 100; fault = IoError.broken }

read_request_header_lem_example :
    read_request_header 1000
      (record { input = header_bytes shard 2 ++ content; fault = IoError.eof })
    ≡ (ok (shard, 2), record { input = content; fault = IoError.eof })
read_request_header_lem_example =
    read_request_header_lem shard 2 1000 content IoError.eof shard_valid (omega arith)
      (inr (omega arith))

abbrev header_source : Source
header_source = record {
  input =
      0x58 ∷ 0x50 ∷ 0x31 ∷ 0x0A ∷ 0 ∷ 5 ∷ b'a' ∷ b'.' ∷ b'b' ∷ b'i' ∷ b'n' ∷ 0 ∷ 0 ∷ 0 ∷ 0 ∷ 0 ∷ 0
      ∷ 0 ∷ 2 ∷ 7 ∷ [];
  fault = IoError.eof;
}

abbrev behind_header : Source
behind_header = record { input = 7 ∷ []; fault = IoError.eof }

header_read : read_request_header 0 header_source ≡ (ok (shard, 2), behind_header)
unfolding read_request_header read_magic read_name read_name_of read_size read_full uint
    validate_filename is_name_byte equal
header_read = refl

read_request_header-IsHeader_example : IsHeader 0 header_source shard 2 behind_header
read_request_header-IsHeader_example =
    read_request_header-IsHeader 0 header_source shard 2 behind_header (omega arith) header_read

read_response-nack_example :
    read_response (record { input = nack_bytes (codes "full") ++ content; fault = IoError.eof })
    ≡ (err (receiver_nack (clip (codes "full"))), record { input = content; fault = IoError.eof })
read_response-nack_example = read_response-nack (codes "full") content IoError.eof

abbrev stream : Bytes
stream = content ++ (toy_sum content ++ (5 ∷ []))

abbrev got_copy : Copy
got_copy = record {
  src = record { input = 5 ∷ []; fault = IoError.eof };
  dst = record { written = content; room = 98; fault = IoError.broken };
  hashed = content;
}

stream_received : receive_stream toy_sum 2 (ends stream IoError.eof sink) ≡ (ok tt, got_copy)
unfolding receive_stream check_trailer copy_buffer copy_loop read_full equal write
stream_received = refl

receive_stream_lem_example :
    receive_stream toy_sum
      (length content)
      (ends (content ++ (toy_sum (9 ∷ []) ++ [])) IoError.eof sink)
    ≡ (
      if equal (toy_sum content) (toy_sum (9 ∷ [])) then ok tt else err checksum_mismatch,
      record {
        src = record { input = []; fault = IoError.eof };
        dst = record sink { written = content; room = 98 };
        hashed = content;
      },
    )
receive_stream_lem_example =
    receive_stream_lem toy_sum length-toy_sum content (toy_sum (9 ∷ [])) [] IoError.eof sink refl
      (omega arith) (omega arith)

receive_stream-IsReceived_example : IsReceived toy_sum length-toy_sum 2 stream sink got_copy
receive_stream-IsReceived_example =
    receive_stream-IsReceived toy_sum length-toy_sum 2 stream IoError.eof sink got_copy
      stream_received

copy_buffer_lem_example :
    copy_buffer (some 1) (ends content IoError.timeout sink)
    ≡ copied_all (some 1) 0 (ends content IoError.timeout sink) (7 ∷ [])
copy_buffer_lem_example = copy_buffer_lem (some 1) (ends content IoError.timeout sink) (omega arith)

abbrev the_rest : Source
the_rest = record { input = content; fault = IoError.eof }

acked :
    read_response (record { input = 0 ∷ content; fault = IoError.eof })
    ≡ (ok tt, record { input = content; fault = IoError.eof })
unfolding read_response respond read_full
acked = refl
