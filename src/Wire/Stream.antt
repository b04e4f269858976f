-- ===== src/Wire/Stream.antt =====
-- SendStream and ReceiveStream of internal/wire/protocol.go, with the loop of `io.CopyBuffer` over
-- `io.TeeReader` and `io.LimitReader`. SHA-256 is the argument `sum256`.
pub mod Copying
pub mod Integrity
use go_xport.Common.{
  ℕ, zero, suc, ◌+◌, ◌-◌, ◌*◌, ◌^◌, min, [], ◌∷◌, ◌++◌, Bytes, ltb, ◌==◌, not, if◌then◌else◌,
  length, take, drop, Option, none, some, equal,
}
use go_xport.Wire.Io.{
  ◌>>=◌, ◌>>◌, guard, Exec, pure, Result, ok, err, IoError, Source, Sink, io, short_read,
  checksum_mismatch, trailer_read, trailer_write, read_full, write,
}

abbrev pub hash_size : ℕ
hash_size = 32

abbrev pub buffer_size : ℕ
buffer_size = 1024 * 1024

-- Both ends of a copy, and the bytes that the hasher has taken in.
pub record Copy : Type 0 where
  pub src : Source
  pub dst : Sink
  pub hashed : Bytes

-- What `io.LimitReader` has left to give; `none` is a reader without it.
abbrev pub Limit : Type 0
Limit = Option ℕ

-- The bytes that one `Read` may deliver.
abbrev pub window : ℕ → Limit → ℕ
window buf none = buf
window buf (some n) = min buf n

abbrev pub less : Limit → ℕ → Limit
less none k = none
less (some n) k = some (n - k)

-- What `Read` reports when it delivers nothing: a used-up limit is an end of file.
abbrev pub end_of : Limit → IoError → IoError
end_of (some zero) fault = IoError.eof
end_of _ fault = fault

-- `CopyBuffer` returns the count, unless the read error is other than the end of file.
abbrev pub stop : ℕ → IoError → Result ℕ
stop copied IoError.eof = ok copied
stop copied e = err (io e)

-- A write error ends the loop.
abbrev pub proceed :
    (Limit → ℕ → Copy → Result ℕ × Copy) → Result (Unit {0}) → Limit → ℕ → Copy → Result ℕ × Copy
proceed again (ok _) limit copied c = again limit copied c
proceed again (err e) limit copied c = (err e, c)

-- One round: the chunk was read, with `rest` behind it; it is hashed and written.
abbrev pub round :
    (Limit → ℕ → Copy → Result ℕ × Copy) → Bytes → Source → Limit → ℕ → Copy → Result ℕ × Copy
round again [] rest limit copied c = (stop copied (end_of limit c.src.fault), c)
round again (b ∷ bs) rest limit copied c =
    let chunk = b ∷ bs in
    let (result, dst) = write io chunk c.dst in
    proceed again result (less limit (length chunk)) (copied + length chunk)
      (record { src = rest; dst = dst; hashed = c.hashed ++ chunk })

-- `fuel` bounds the rounds.
unfoldable pub copy_loop : ℕ → ℕ → Limit → ℕ → Copy → Result ℕ × Copy
copy_loop zero buf limit copied c = (stop copied (end_of limit c.src.fault), c)
copy_loop (suc fuel) buf limit copied c =
    let n = window buf limit in
    round (copy_loop fuel buf) (take n c.src.input) (record c.src { input = drop n c.src.input })
      limit copied c

-- Each round takes a byte, so as many rounds as there are bytes are enough.
unfoldable pub copy_buffer : Limit → Exec Copy ℕ
copy_buffer limit c = copy_loop (length c.src.input) buffer_size limit 0 c

abbrev pub on_src {ℓ} : {A : Type ℓ} → (Source → Result A × Source) → Copy → Result A × Copy
on_src m c = let (r, src) = m c.src in (r, record c { src = src })

abbrev pub on_dst {ℓ} : {A : Type ℓ} → (Sink → Result A × Sink) → Copy → Result A × Copy
on_dst m c = let (r, dst) = m c.dst in (r, record c { dst = dst })

-- `sha256.New()`
abbrev pub new_hasher : Exec Copy (Unit {0})
new_hasher c = (ok tt, record c { hashed = [] })

-- `int64(payloadSize)` as a limit: a size from 2^63 on is negative, and then nothing is read.
abbrev pub int64_limit : ℕ → ℕ
int64_limit size = if ltb size (2 ^ 63) then size else 0

module _ (sum256 : Bytes → Bytes) where
  abbrev pub hasher_sum : Exec Copy Bytes
  hasher_sum c = (ok (sum256 c.hashed), c)

  unfoldable pub send_stream : ℕ → Exec Copy Bytes
  send_stream payload_size = do
    new_hasher
    copied ← copy_buffer none
    guard (not (copied == payload_size)) (short_read payload_size copied)
    sum ← hasher_sum
    on_dst (write trailer_write sum)
    pure sum

  -- The trailer behind the payload, compared with the digest byte by byte.
  unfoldable pub check_trailer : Exec Copy (Unit {0})
  check_trailer = do
    trailer ← on_src (read_full trailer_read hash_size)
    calculated ← hasher_sum
    guard (not (equal calculated trailer)) checksum_mismatch

  unfoldable pub receive_stream : ℕ → Exec Copy (Unit {0})
  receive_stream payload_size = do
    new_hasher
    copied ← copy_buffer (some (int64_limit payload_size))
    guard (not (copied == payload_size)) (short_read payload_size copied)
    check_trailer
