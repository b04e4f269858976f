-- ===== src/Wire/Stream/Integrity.antt =====
-- A stream that SendStream writes is received whole, and ReceiveStream accepts no other.
use go_xport.Common.{
  ℕ, ◌+◌, ◌-◌, ◌^◌, ◌≤◌, ◌<◌, ◌≡◌, inl, inr, sym, ap, ◌∙◌, true, not, [], ◌++◌, Bytes, arith, ltb,
  ◌==◌, length, take, drop, none, some, equal, equal_iff, append_assoc, take-append, drop-append,
  drop_all, Bool-cases, if◌then◌else◌, length-take, take-append-drop, lt→ltb, ltb→lt, ==_iff,
  ==_refl,
}
use go_xport.Wire.Io.{
  Result, ok, err, IoError, Sink, short_read, checksum_mismatch, trailer_read, trailer_write, guard,
  guard-ok, >>=-ok, read_full, read_full-append, read_full-ok, write_fits,
}
use go_xport.Wire.Stream.{
  Copy, less, stop, end_of, copy_buffer, on_src, int64_limit, hash_size, send_stream,
  receive_stream, check_trailer,
}
use go_xport.Wire.Stream.Copying.{moved, drop-length-take, copy_buffer_lem, copy_buffer-fits}

-- A connection or file that holds `input`, a destination, and a new hasher.
abbrev pub ends : Bytes → IoError → Sink → Copy
ends input fault dst = record {
  src = record { input = input; fault = fault };
  dst = dst;
  hashed = [];
}

module _ (sum256 : Bytes → Bytes)
    (length-sum256 : (b : Bytes) → length (sum256 b) ≡ hash_size) where
  -- A file of the announced size goes out whole, with its digest behind it, and SendStream returns
  -- the digest, if the destination has room for both.
  pub send_stream_lem :
      (content : Bytes) (dst : Sink)
      → length content + hash_size ≤ dst.room
      → send_stream sum256 (length content) (ends content IoError.eof dst) ≡ (
        ok (sum256 content),
        record {
          src = record { input = []; fault = IoError.eof };
          dst = record dst {
            written = dst.written ++ (content ++ sum256 content);
            room = dst.room - (length content + hash_size);
          };
          hashed = content;
        },
      )
  unfolding send_stream
  send_stream_lem content dst room =
      let c = ends content IoError.eof dst in
      let d : Sink = record dst {
        written = dst.written ++ content;
        room = dst.room - length content;
      } in
      let e : dst.room - length content - length (sum256 content)
          ≡ dst.room - (length content + hash_size) =
        omega (arith, length-sum256 content) in
      rw (
        copy_buffer_lem none c (omega arith),
        drop_all (length content) content (omega arith),
        let z : 0 + length content ≡ length content = omega arith in z,
        ==_refl (length content),
        write_fits trailer_write (sum256 content) d (omega (arith, length-sum256 content)),
        append_assoc dst.written content (sum256 content),
        e,
      )

  -- With a content of the announced size, below 2^63, a trailer of 32 bytes behind it, and room for
  -- the content, ReceiveStream returns nil exactly if the trailer is the digest of the content, and
  -- else the checksum error; either way the content has been written, and what follows the trailer
  -- is left on the stream.
  pub receive_stream_lem :
      (content trailer rest : Bytes) (fault : IoError) (dst : Sink)
      → length trailer ≡ hash_size
      → length content < 2 ^ 63
      → length content ≤ dst.room
      → receive_stream sum256 (length content) (ends (content ++ (trailer ++ rest)) fault dst) ≡ (
        if equal (sum256 content) trailer then ok tt else err checksum_mismatch,
        record {
          src = record { input = rest; fault = fault };
          dst = record dst { written = dst.written ++ content; room = dst.room - length content };
          hashed = content;
        },
      )
  unfolding receive_stream check_trailer
  receive_stream_lem content trailer rest fault dst full small room =
      let size = length content in
      let c = ends (content ++ (trailer ++ rest)) fault dst in
      let limit : int64_limit size ≡ size = rw (lt→ltb size (2 ^ 63) small) in
      let all_read : size - size ≡ 0 = omega arith in
      let counted : 0 + size ≡ size = omega arith in
      rw
        (
          limit,
          copy_buffer_lem (some size) c (rw (take-append content (trailer ++ rest)) room),
          take-append content (trailer ++ rest),
          all_read,
          counted,
          ==_refl size,
          drop-append content (trailer ++ rest),
          read_full-append trailer_read hash_size trailer rest fault full,
        )
        (ground arith)

  -- What ReceiveStream has seen when it returns nil.
  pub record IsReceived (size : ℕ) (input : Bytes) (dst : Sink) (t : Copy) : Type 0 where
    pub content : Bytes
    pub splits : input ≡ content ++ (sum256 content ++ t.src.input)
    pub size_is : length content ≡ size
    pub written : t.dst.written ≡ dst.written ++ content
    pub int64 : size < 2 ^ 63

  count_is :
      (size : ℕ) (input : Bytes) → length (take (int64_limit size) input) ≡ size → size < 2 ^ 63
  count_is size input e = elim (Bool-cases (ltb size (2 ^ 63))) [
    | inl small ↦ ltb→lt size (2 ^ 63) small
    | inr large ↦
        let none_read : int64_limit size ≡ 0 = rw large in
        omega (arith, length-take (int64_limit size) input)
  ]

  stop-ok : (k : ℕ) (e : IoError) {n : ℕ} → stop k e ≡ ok n → k ≡ n
  stop-ok k IoError.eof h = ground arith
  stop-ok k IoError.unexpected_eof h = cc
  stop-ok k IoError.closed h = cc
  stop-ok k IoError.timeout h = cc
  stop-ok k IoError.broken h = cc

  check_trailer-ok :
      (c t : Copy)
      → check_trailer sum256 c ≡ (ok tt, t)
      → (c.src.input ≡ sum256 c.hashed ++ t.src.input) × (t.dst ≡ c.dst)
  unfolding check_trailer
  check_trailer-ok c t h =
      let (trailer, c1, r1, h1) = >>=-ok (on_src (read_full trailer_read hash_size)) _ c h in
      let (genuine, e) =
        guard-ok (not (equal (sum256 c1.hashed) trailer)) checksum_mismatch c1 h1 in
      let same : equal (sum256 c1.hashed) trailer ≡ true = ground arith in
      let read : read_full trailer_read hash_size c.src ≡ (ok trailer, c1.src) = ground arith in
      let kept : c1.hashed ≡ c.hashed = ground arith in
      let split = (read_full-ok trailer_read hash_size c.src read).0 in
      (cc (split, kept, (equal_iff (sum256 c1.hashed) trailer).0 same), ground arith)

  -- ReceiveStream returns nil only for content of the announced size, below 2^63, with its digest
  -- behind it, and then exactly that content is what was added to the destination.
  pub receive_stream-IsReceived :
      (size : ℕ) (input : Bytes) (fault : IoError) (dst : Sink) (t : Copy)
      → receive_stream sum256 size (ends input fault dst) ≡ (ok tt, t)
      → IsReceived size input dst t
  unfolding receive_stream
  receive_stream-IsReceived size input fault dst t h =
      let c = ends input fault dst in
      let limit = int64_limit size in
      let content = take limit input in
      let (n, c1, r1, h1) = >>=-ok (copy_buffer (some limit)) _ c h in
      let (_, c2, r2, h2) = >>=-ok (guard (not (n == size)) (short_read size n)) _ c1 h1 in
      let (same, e) = guard-ok (not (n == size)) (short_read size n) c1 r2 in
      let is_size : n ≡ size = (==_iff n size).0 (ground arith) in
      let copied = sym (copy_buffer_lem (some limit) c (copy_buffer-fits (some limit) c r1)) ∙ r1 in
      let state : moved c content ≡ c2 = ap (λ (r : Result ℕ × Copy). r.1) copied ∙ e in
      let counted =
        stop-ok (0 + length content) (end_of (less (some limit) (length content)) fault)
          (ap (λ (r : Result ℕ × Copy). r.0) copied) in
      let count : length content ≡ size = omega arith in
      let (split, kept) = check_trailer-ok c2 t h2 in
      let tail : drop (length content) input ≡ sum256 content ++ t.src.input = cc in
      record {
        content = content;
        splits =
            sym (take-append-drop limit input)
            ∙ ap (◌++◌ content) (sym (drop-length-take limit input) ∙ tail);
        size_is = count;
        written = ap (λ (s : Sink). s.written) kept ∙ sym (ap (λ (k : Copy). k.dst.written) state);
        int64 = count_is size input count;
      }
