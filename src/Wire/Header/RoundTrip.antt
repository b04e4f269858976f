-- ===== src/Wire/Header/RoundTrip.antt =====
-- What WriteRequestHeader writes, ReadRequestHeader reads back; what it refuses; and that it
-- accepts nothing else.
use go_xport.Common.{
  ℕ, ◌+◌, ◌-◌, ◌%◌, ◌^◌, ◌≤◌, ◌<◌, ◌≡◌, ◌⊎◌, refl, ◌∙◌, false, [], ◌∷◌, ◌++◌, Bytes, arith, length,
  length-append, equal_refl, append_assoc, le→ltb,
}
use go_xport.Wire.Io.{ok, Sink, IoError, io, read_full-append, write_fits}
use go_xport.Wire.BigEndian.{put_uint, uint, length-put_uint, uint-put_uint}
use go_xport.Wire.Filename.{validate_filename}
use go_xport.Wire.Filename.Accepts.{IsPortable, validate_filename_iff}
use go_xport.Wire.Header.{
  magic_bytes, max_filename_len, header_bytes, write_request_header, read_request_header,
  read_magic, read_name, read_name_of, read_size, bad_name_len, exceeds,
}

-- `max_size` lets a payload of `size` bytes through.
abbrev pub Admits : ℕ → ℕ → Type 0
Admits max_size size = (max_size ≡ 0) ⊎ (size ≤ max_size)

pub length-header_bytes :
    (name : Bytes) (size : ℕ) → length (header_bytes name size) ≡ length name + 14
unfolding header_bytes
length-header_bytes name size = omega (
  arith,
  length-append (put_uint 2 (length name % 2 ^ 16)) (name ++ put_uint 8 (size % 2 ^ 64)),
  length-append name (put_uint 8 (size % 2 ^ 64)),
  length-put_uint 2 (length name % 2 ^ 16),
  length-put_uint 8 (size % 2 ^ 64),
)

-- A valid name goes out as one header, if there is room for it.
pub write_request_header_lem :
    (name : Bytes) (size : ℕ) (s : Sink)
    → validate_filename name ≡ ok tt
    → length name + 14 ≤ s.room
    → write_request_header name size s ≡ (
      ok tt,
      record s {
        written = s.written ++ header_bytes name size;
        room = s.room - length (header_bytes name size);
      },
    )
unfolding write_request_header
write_request_header_lem name size s v h =
    let short = ((validate_filename_iff name).0 v).short in
    let step =
      write_fits io (header_bytes name size) s (omega (arith, length-header_bytes name size)) in
    rw (v, le→ltb max_filename_len (length name) short) step

portable-nonempty : (name : Bytes) → IsPortable name → 0 < length name
portable-nonempty [] v = absurd v.starts
portable-nonempty (c ∷ cs) v = omega arith

guard_len : (n : ℕ) → 0 < n → n ≤ max_filename_len → bad_name_len n ≡ false
guard_len n p q = ground arith

guard_size : (max_size n : ℕ) → Admits max_size n → exceeds max_size n ≡ false
guard_size max_size n h = ground arith

-- From a stream that begins with the header of a valid name and a size below 2^64 and within the
-- limit, ReadRequestHeader returns that name and size, and leaves what follows the header.
pub read_request_header_lem :
    (name : Bytes) (size max_size : ℕ) (rest : Bytes) (fault : IoError)
    → validate_filename name ≡ ok tt
    → size < 2 ^ 64
    → Admits max_size size
    → read_request_header max_size
        (record { input = header_bytes name size ++ rest; fault = fault })
      ≡ (ok (name, size), record { input = rest; fault = fault })
unfolding read_request_header read_magic read_name read_name_of read_size header_bytes
read_request_header_lem name size max_size rest fault v fits admits =
    let valid = (validate_filename_iff name).0 v in
    let len = length name in
    let positive = portable-nonempty name valid in
    let len_bytes = put_uint 2 (len % 2 ^ 16) in
    let size_bytes = put_uint 8 (size % 2 ^ 64) in
    let len_back : uint len_bytes ≡ len =
      uint-put_uint 2 (len % 2 ^ 16) (omega arith) ∙ omega (arith, valid.short) in
    let size_back : uint size_bytes ≡ size =
      uint-put_uint 8 (size % 2 ^ 64) (omega arith) ∙ omega arith in
    rw (
      append_assoc magic_bytes (len_bytes ++ (name ++ size_bytes)) rest,
      append_assoc len_bytes (name ++ size_bytes) rest,
      append_assoc name size_bytes rest,
      read_full-append io 4 magic_bytes (len_bytes ++ (name ++ (size_bytes ++ rest))) fault refl,
      equal_refl magic_bytes,
      read_full-append io 2 len_bytes (name ++ (size_bytes ++ rest)) fault
          (length-put_uint 2 (len % 2 ^ 16)),
      len_back,
      guard_len (length name) positive valid.short,
      read_full-append io (length name) name (size_bytes ++ rest) fault refl,
      v,
      read_full-append io 8 size_bytes rest fault (length-put_uint 8 (size % 2 ^ 64)),
      size_back,
      guard_size max_size size admits,
    )
