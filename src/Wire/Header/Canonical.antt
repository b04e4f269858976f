-- ===== src/Wire/Header/Canonical.antt =====
-- ReadRequestHeader accepts exactly the headers that WriteRequestHeader writes.
use go_xport.Common.{
  ◌↔◌, ℕ, ◌%◌, ◌^◌, ◌≤◌, ◌<◌, ◌≡◌, sym, ap, ◌∙◌, true, false, not, ◌++◌, Bytes, arith, length,
  equal, equal_iff, append_assoc, IsBytes, All-split, subst,
}
use go_xport.Wire.Io.{
  Result, IoError, guard, guard-ok, ok, Source, io, invalid_magic, invalid_filename, bad_pattern,
  lift, payload_too_large, read_full, read_full-ok, >>=-ok,
}
use go_xport.Wire.BigEndian.{uint, put_uint-uint, uint-bound}
use go_xport.Wire.Filename.{validate_filename}
use go_xport.Wire.Header.RoundTrip.{Admits, read_request_header_lem}
use go_xport.Wire.Header.{
  magic_bytes, max_filename_len, header_bytes, read_request_header, read_magic, read_name,
  read_name_of, read_size, bad_name_len, exceeds,
}

Admits-of : (max_size n : ℕ) → exceeds max_size n ≡ false → Admits max_size n
Admits-of max_size n h = ground arith

len_of : (n : ℕ) → bad_name_len n ≡ false → n ≤ max_filename_len
len_of n h = ground arith

read_magic-ok :
    (s : Source) {u : Unit {0}} {t : Source}
    → read_magic s ≡ (ok u, t)
    → s.input ≡ magic_bytes ++ t.input
unfolding read_magic
read_magic-ok s {t = t} h =
    let (magic, s1, r1, h1) = >>=-ok (read_full io 4) _ s h in
    let (same, e) = guard-ok (not (equal magic magic_bytes)) invalid_magic s1 h1 in
    let is_magic : equal magic magic_bytes ≡ true = ground arith in
    (read_full-ok io 4 s r1).0 ∙ cc (e, (equal_iff magic magic_bytes).0 is_magic)

record HasName (n : ℕ) (s : Source) (name : Bytes) (t : Source) : Type 0 where
  splits : s.input ≡ name ++ t.input
  len_is : length name ≡ n
  short : length name ≤ max_filename_len
  valid : validate_filename name ≡ ok tt

read_name_of-ok :
    (n : ℕ) (s : Source) {name : Bytes} {t : Source}
    → read_name_of n s ≡ (ok name, t)
    → HasName n s name t
unfolding read_name_of
read_name_of-ok n s {name} {t} h =
    let (_, s1, r1, h1) = >>=-ok (guard (bad_name_len n) (invalid_filename bad_pattern)) _ s h in
    let (nm, s2, r2, h2) = >>=-ok (read_full io n) _ s1 h1 in
    let (_, s3, r3, h3) = >>=-ok (lift (validate_filename nm)) _ s2 h2 in
    let (fits, e) = guard-ok (bad_name_len n) (invalid_filename bad_pattern) s r1 in
    let (split, len, _) = read_full-ok io n s1 r2 in
    let same_name : nm ≡ name = ground arith in
    let same_state : s2 ≡ t = cc in
    record {
      splits = cc;
      len_is = cc;
      short = omega (arith, len_of n fits, ap length same_name);
      valid = cc;
    }

record HasSize (max_size : ℕ) (s : Source) (size : ℕ) (t : Source) : Type 0 where
  size_bytes : Bytes
  splits : s.input ≡ size_bytes ++ t.input
  eight : length size_bytes ≡ 8
  size_is : uint size_bytes ≡ size
  admits : Admits max_size size

read_size-ok :
    (max_size : ℕ) (s : Source) {size : ℕ} {t : Source}
    → read_size max_size s ≡ (ok size, t)
    → HasSize max_size s size t
unfolding read_size
read_size-ok max_size s {size} {t} h =
    let (sb, s1, r1, h1) = >>=-ok (read_full io 8) _ s h in
    let size' = uint sb in
    let (_, s2, r2, h2) =
      >>=-ok (guard (exceeds max_size size') (payload_too_large size' max_size)) _ s1 h1 in
    let (fits, e) = guard-ok (exceeds max_size size') (payload_too_large size' max_size) s1 r2 in
    let (split, len, _) = read_full-ok io 8 s r1 in
    let same_size : uint sb ≡ size = ground arith in
    let same_state : s2 ≡ t = cc in
    record {
      size_bytes = sb;
      splits = cc;
      eight = len;
      size_is = same_size;
      admits = subst (Admits max_size) same_size (Admits-of max_size (uint sb) fits);
    }

-- The parts of a header that was read, put together again.
join :
    (lb sb : Bytes) (name rest : Bytes) (size : ℕ)
    → IsBytes lb
    → IsBytes sb
    → length lb ≡ 2
    → length sb ≡ 8
    → uint lb ≡ length name
    → uint sb ≡ size
    → length name ≤ max_filename_len
    → size < 2 ^ 64
    → magic_bytes ++ (lb ++ (name ++ (sb ++ rest))) ≡ header_bytes name size ++ rest
unfolding header_bytes
join lb sb name rest size hl hs two eight len size_is short bound =
    let fit16 : length name % 2 ^ 16 ≡ uint lb = omega arith in
    let fit64 : size % 2 ^ 64 ≡ uint sb = omega arith in
    rw (
      fit16,
      fit64,
      put_uint-uint 2 lb hl two,
      put_uint-uint 8 sb hs eight,
      append_assoc magic_bytes (lb ++ (name ++ sb)) rest,
      append_assoc lb (name ++ sb) rest,
      append_assoc name sb rest,
    )

pub record IsHeader (max_size : ℕ) (s : Source) (name : Bytes) (size : ℕ) (t : Source)
    : Type 0 where
  pub canonical : s.input ≡ header_bytes name size ++ t.input
  pub valid : validate_filename name ≡ ok tt
  pub bound : size < 2 ^ 64
  pub admits : Admits max_size size

read_name-ok :
    (s : Source) {name : Bytes} {t : Source}
    → read_name s ≡ (ok name, t)
    → (lb : Bytes) × (s1 : Source) × (s.input ≡ lb ++ s1.input)
      × (length lb ≡ 2)
      × HasName (uint lb) s1 name t
unfolding read_name
read_name-ok s h =
    let (lb, s1, r1, h1) = >>=-ok (read_full io 2) _ s h in
    let (split, len, _) = read_full-ok io 2 s r1 in
    (lb, s1, split, len, read_name_of-ok (uint lb) s1 h1)

-- From a stream of bytes a header is accepted only if it is, byte for byte, what WriteRequestHeader
-- writes for that name and size; the name is valid, and the size within 64 bits and the limit.
pub read_request_header-IsHeader :
    (max_size : ℕ) (s : Source) (name : Bytes) (size : ℕ) (t : Source)
    → IsBytes s.input
    → read_request_header max_size s ≡ (ok (name, size), t)
    → IsHeader max_size s name size t
unfolding read_request_header
read_request_header-IsHeader max_size s name size t bytes h =
    let (_, s1, r1, h1) = >>=-ok read_magic _ s h in
    let (nm, s2, r2, h2) = >>=-ok read_name _ s1 h1 in
    let (sz, s3, r3, h3) = >>=-ok (read_size max_size) _ s2 h2 in
    let same_name : nm ≡ name = ground arith in
    let same_size : sz ≡ size = ground arith in
    let same_state : s3 ≡ t = ground arith in
    let m = read_magic-ok s r1 in
    let (lb, s4, split, two, n) = read_name-ok s1 r2 in
    let z = read_size-ok max_size s2 r3 in
    let whole : s.input ≡ magic_bytes ++ (lb ++ (nm ++ (z.size_bytes ++ t.input))) =
      cc (n.splits, z.splits) in
    let after_magic = (All-split _ magic_bytes _ (subst IsBytes whole bytes)).1 in
    let (hl, after_len) = All-split _ lb _ after_magic in
    let (hs, _) = All-split _ z.size_bytes t.input (All-split _ nm _ after_len).1 in
    let bound : size < 2 ^ 64 =
      subst (λ k. k < 2 ^ 64) (z.size_is ∙ same_size) (uint-bound 8 z.size_bytes hs z.eight) in
    record {
      canonical =
          whole
          ∙ cc (
            same_name,
            join lb z.size_bytes name t.input size hl hs two z.eight
                (sym n.len_is ∙ ap length same_name) (z.size_is ∙ same_size)
                (omega (arith, n.short, ap length same_name)) bound,
          );
      valid = cc (n.valid);
      bound = bound;
      admits = subst (Admits max_size) same_size z.admits;
    }

-- The header of a valid name is accepted exactly if its size is within the limit, if there is one.
pub read_request_header_iff :
    (max_size : ℕ) (name : Bytes) (size : ℕ) (rest : Bytes) (fault : IoError)
    → validate_filename name ≡ ok tt
    → size < 2 ^ 64
    → IsBytes (header_bytes name size ++ rest)
    → ((read_request_header max_size
          (record { input = header_bytes name size ++ rest; fault = fault })).0
        ≡ ok (name, size))
      ↔ Admits max_size size
read_request_header_iff max_size name size rest fault valid small bytes =
    let s : Source = record { input = header_bytes name size ++ rest; fault = fault } in
    (
      λ e.
          (read_request_header-IsHeader max_size s name size (read_request_header max_size s).1
            bytes
            (ap (λ (r : Result (Bytes × ℕ)). (r, (read_request_header max_size s).1)) e)).admits,
      λ within.
          ap (λ (o : Result (Bytes × ℕ) × Source). o.0)
            (read_request_header_lem name size max_size rest fault valid small within),
    )
