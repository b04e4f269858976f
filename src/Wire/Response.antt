-- ===== src/Wire/Response.antt =====
-- WriteAck, WriteNack and ReadResponse of internal/wire/protocol.go.
pub mod RoundTrip
use go_xport.Common.{ℕ, ◌%◌, ◌^◌, [], ◌∷◌, ◌++◌, Bytes, ltb, ◌==◌, if◌then◌else◌, length, take}
use go_xport.Wire.Io.{
  ◌>>=◌, ◌>>◌, Exec, pure, raise, Source, Sink, io, nack_length, nack_message, receiver_nack,
  unexpected_response, read_full, write,
}
use go_xport.Wire.BigEndian.{put_uint, uint}

abbrev pub ack_byte : ℕ
ack_byte = 0x00

abbrev pub nack_byte : ℕ
nack_byte = 0x01

unfoldable pub write_ack : Exec Sink (Unit {0})
write_ack = write io (ack_byte ∷ [])

-- A message is cut to the length that fits its field.
unfoldable pub clip_to : ℕ → Bytes → Bytes
clip_to limit msg = if ltb limit (length msg) then take limit msg else msg

abbrev pub clip : Bytes → Bytes
clip msg = clip_to 65535 msg

unfoldable pub nack_bytes : Bytes → Bytes
nack_bytes msg =
    let msg_bytes = clip msg in nack_byte ∷ (put_uint 2 (length msg_bytes % 2 ^ 16) ++ msg_bytes)

unfoldable pub write_nack : Bytes → Exec Sink (Unit {0})
write_nack msg = write io (nack_bytes msg)

-- The message behind a NACK byte; the call never succeeds.
unfoldable pub read_nack : Exec Source (Unit {0})
read_nack = do
  len_bytes ← read_full nack_length 2
  msg ← read_full nack_message (uint len_bytes)
  raise (receiver_nack msg)

-- The switch on the response code.
unfoldable pub respond : Bytes → Exec Source (Unit {0})
respond [] = pure tt
respond (code ∷ _) =
    if code == ack_byte
    then pure tt
    else if code == nack_byte
    then read_nack
    else raise (unexpected_response code)

unfoldable pub read_response : Exec Source (Unit {0})
read_response = do code ← read_full io 1; respond code
