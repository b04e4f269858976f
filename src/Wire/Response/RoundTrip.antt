-- ===== src/Wire/Response/RoundTrip.antt =====
-- What the receiver answers is what ReadResponse reports.
use go_xport.Common.{
  ℕ, ◌%◌, ◌^◌, ◌≤◌, ◌≡◌, ◌≢◌, refl, ◌∙◌, [], ◌∷◌, ◌++◌, Bytes, arith, length, length-take,
  append_assoc,
}
use go_xport.Wire.Io.{
  ok, err, IoError, Source, io, receiver_nack, unexpected_response, nack_length, nack_message,
  read_full, read_full-append,
}
use go_xport.Wire.BigEndian.{put_uint, uint, length-put_uint, uint-put_uint}
use go_xport.Wire.Response.{
  ack_byte, nack_byte, clip, clip_to, nack_bytes, read_nack, respond, read_response,
}

length-clip_to : (limit : ℕ) (msg : Bytes) → length (clip_to limit msg) ≤ limit
unfolding clip_to
length-clip_to limit msg = ground (arith, length-take limit msg)

pub clip_to_short : (limit : ℕ) (msg : Bytes) → length msg ≤ limit → clip_to limit msg ≡ msg
unfolding clip_to
clip_to_short limit msg h = ground arith

-- On a stream that is not empty, ReadResponse returns nil only if the first byte is ACK, and takes
-- only that byte off.
pub read_response-ack :
    (code : ℕ) (rest : Bytes) (fault : IoError) (t : Source)
    → read_response (record { input = code ∷ rest; fault = fault }) ≡ (ok tt, t)
    → (code ≡ ack_byte) × (t ≡ record { input = rest; fault = fault })
unfolding read_response respond read_nack read_full
read_response-ack code rest fault t h = ground arith

-- ReadResponse turns what WriteNack writes for a message into the error with that message, cut to
-- 65535 bytes, and leaves what follows.
pub read_response-nack :
    (msg rest : Bytes) (fault : IoError)
    → read_response (record { input = nack_bytes msg ++ rest; fault = fault })
      ≡ (err (receiver_nack (clip msg)), record { input = rest; fault = fault })
unfolding read_response respond read_nack nack_bytes
read_response-nack msg rest fault =
    let len = length (clip msg) in
    let len_bytes = put_uint 2 (len % 2 ^ 16) in
    let len_back : uint len_bytes ≡ len =
      uint-put_uint 2 (len % 2 ^ 16) (omega arith) ∙ omega (arith, length-clip_to 65535 msg) in
    rw (
      append_assoc (nack_byte ∷ []) (len_bytes ++ clip msg) rest,
      append_assoc len_bytes (clip msg) rest,
      read_full-append io 1 (nack_byte ∷ []) (len_bytes ++ (clip msg ++ rest)) fault refl,
      read_full-append nack_length 2 len_bytes (clip msg ++ rest) fault
          (length-put_uint 2 (len % 2 ^ 16)),
      len_back,
      read_full-append nack_message len (clip msg) rest fault refl,
    )

-- The whole behaviour of ReadResponse on a first byte that is neither answer.
pub read_response-unexpected :
    (code : ℕ) (rest : Bytes) (fault : IoError)
    → code ≢ ack_byte
    → code ≢ nack_byte
    → read_response (record { input = code ∷ rest; fault = fault })
      ≡ (err (unexpected_response code), record { input = rest; fault = fault })
unfolding read_response respond read_full
read_response-unexpected code rest fault a n = ground arith
