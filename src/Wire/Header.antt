-- ===== src/Wire/Header.antt =====
-- WriteRequestHeader and ReadRequestHeader of internal/wire/protocol.go.
pub mod RoundTrip
pub mod Canonical
use go_xport.Common.{
  ℕ, ◌%◌, ◌^◌, Bool, not, ◌&&◌, ◌||◌, [], ◌∷◌, ◌++◌, Bytes, ltb, ◌==◌, length, equal,
}
use go_xport.Wire.Io.{
  ◌>>=◌, ◌>>◌, guard, Exec, pure, lift, Source, Sink, io, invalid_magic, invalid_filename,
  bad_pattern, name_too_long, payload_too_large, read_full, write,
}
use go_xport.Wire.BigEndian.{put_uint, uint}
use go_xport.Wire.Filename.{validate_filename}

-- "XP1\n"
abbrev pub magic_bytes : Bytes
magic_bytes = 0x58 ∷ 0x50 ∷ 0x31 ∷ 0x0A ∷ []

abbrev pub max_filename_len : ℕ
max_filename_len = 200

-- The buffer that WriteRequestHeader fills; `uint16(nameLen)` keeps sixteen bits.
unfoldable pub header_bytes : Bytes → ℕ → Bytes
header_bytes filename payload_size =
    magic_bytes
    ++ (put_uint 2 (length filename % 2 ^ 16) ++ (filename ++ put_uint 8 (payload_size % 2 ^ 64)))

unfoldable pub write_request_header : Bytes → ℕ → Exec Sink (Unit {0})
write_request_header filename payload_size = do
  lift (validate_filename filename)
  guard (ltb max_filename_len (length filename)) (name_too_long (length filename))
  write io (header_bytes filename payload_size)

-- The four bytes of magic, compared one by one.
unfoldable pub read_magic : Exec Source (Unit {0})
read_magic = do magic ← read_full io 4; guard (not (equal magic magic_bytes)) invalid_magic

abbrev pub bad_name_len : ℕ → Bool
bad_name_len name_len = name_len == 0 || ltb max_filename_len name_len

-- The name behind a length of its own.
unfoldable pub read_name_of : ℕ → Exec Source Bytes
read_name_of name_len = do
  guard (bad_name_len name_len) (invalid_filename bad_pattern)
  filename ← read_full io name_len
  lift (validate_filename filename)
  pure filename

unfoldable pub read_name : Exec Source Bytes
read_name = do len_bytes ← read_full io 2; read_name_of (uint len_bytes)

abbrev pub exceeds : ℕ → ℕ → Bool
exceeds max_size payload_size = ltb 0 max_size && ltb max_size payload_size

unfoldable pub read_size : ℕ → Exec Source ℕ
read_size max_size = do
  size_bytes ← read_full io 8
  let payload_size = uint size_bytes
  guard (exceeds max_size payload_size) (payload_too_large payload_size max_size)
  pure payload_size

-- The result is the file name and the payload's size. `max_size` 0 sets no limit.
unfoldable pub read_request_header : ℕ → Exec Source (Bytes × ℕ)
read_request_header max_size = do
  read_magic
  filename ← read_name
  payload_size ← read_size max_size
  pure (filename, payload_size)
