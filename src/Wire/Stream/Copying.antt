-- ===== src/Wire/Stream/Copying.antt =====
-- What `io.CopyBuffer` does, whatever the size of the buffer.
use native.Mathlib.Nat.{add_assoc}
use native.Mathlib.Decide.{dec_le}
use go_xport.Common.{
  ℕ, zero, suc, ◌+◌, ◌-◌, ◌≤◌, ◌<◌, ◌≡◌, refl, sym, ap, ◌∙◌, min, [], ◌∷◌, ◌++◌, Bytes, arith,
  length, take, drop, none, some, length-drop, length-append, length-eq-zero, List-cases,
  append_assoc, append-nil, take-append-drop, inl, inr,
}
use go_xport.Wire.Io.{Result, ok, io, write_fits, write_full}
use go_xport.Wire.Stream.{
  Copy, Limit, window, less, end_of, stop, copy_loop, copy_buffer, buffer_size,
}

-- The bytes that a copy is about.
abbrev pub payload : Limit → Bytes → Bytes
payload none input = input
payload (some n) input = take n input

-- The copy with `p` moved from the source to the destination and the hasher.
abbrev pub moved : Copy → Bytes → Copy
moved c p = record {
  src = record c.src { input = drop (length p) c.src.input };
  dst = record c.dst { written = c.dst.written ++ p; room = c.dst.room - length p };
  hashed = c.hashed ++ p;
}

pub take-nil : (n : ℕ) → take {A = ℕ} n [] ≡ []
take-nil zero = refl
take-nil (suc n) = refl

drop-nil : (n : ℕ) → drop {A = ℕ} n [] ≡ []
drop-nil zero = refl
drop-nil (suc n) = refl

drop-drop : (m n : ℕ) (xs : Bytes) → drop m (drop n xs) ≡ drop (n + m) xs
drop-drop m zero xs = ap (λ k. drop k xs) (omega arith)
drop-drop m (suc n) [] = rw (drop-nil m, drop-nil (suc n + m))
drop-drop m (suc n) (x ∷ xs) =
    drop-drop m n xs
    ∙ ap (λ k. drop k (x ∷ xs)) (let e : suc (n + m) ≡ suc n + m = omega arith in e)

pub drop-length-take : (w : ℕ) (xs : Bytes) → drop (length (take w xs)) xs ≡ drop w xs
drop-length-take zero xs = refl
drop-length-take (suc w) [] = refl
drop-length-take (suc w) (x ∷ xs) = drop-length-take w xs

pub chunk_drop : (w : ℕ) (xs chunk : Bytes) → take w xs ≡ chunk → drop w xs ≡ drop (length chunk) xs
chunk_drop w xs chunk e = sym (drop-length-take w xs) ∙ ap (λ (t : Bytes). drop (length t) xs) e

payload_window :
    (n w : ℕ) (xs : Bytes)
    → w ≤ n
    → take n xs ≡ take w xs ++ take (n - length (take w xs)) (drop w xs)
payload_window n zero xs h = ap (λ k. take k xs) (omega arith)
payload_window n (suc w) [] h = rw (take-nil n, take-nil (n - 0))
payload_window zero (suc w) (x ∷ xs) h = absurd (omega arith)
payload_window (suc n) (suc w) (x ∷ xs) h =
    ap (◌∷◌ x) (
      payload_window n w xs (omega arith) ∙ ap (λ k. take w xs ++ take k (drop w xs)) (omega arith))

payload_split :
    (buf : ℕ) (limit : Limit) (xs : Bytes)
    → payload limit xs
      ≡ take (window buf limit) xs
        ++ payload (less limit (length (take (window buf limit) xs))) (drop (window buf limit) xs)
payload_split buf none xs = sym (take-append-drop buf xs)
payload_split buf (some n) xs = payload_window n (min buf n) xs (omega arith)

-- A `Read` delivers nothing only where nothing is left of the payload.
payload_done :
    (buf : ℕ) (limit : Limit) (xs : Bytes)
    → 0 < buf
    → take (window buf limit) xs ≡ []
    → payload limit xs ≡ []
payload_done buf none [] h e = refl
payload_done buf (some n) [] h e = take-nil n
payload_done zero limit (x ∷ xs) h e = absurd (omega arith)
payload_done (suc buf) none (x ∷ xs) h e = cc
payload_done (suc buf) (some zero) (x ∷ xs) h e = refl
payload_done (suc buf) (some (suc n)) (x ∷ xs) h e =
    let w : min (suc buf) (suc n) ≡ suc (min buf n) = omega arith in
    let gone : take (suc (min buf n)) (x ∷ xs) ≡ [] = rw w at e in cc

payload_chunk :
    (buf : ℕ) (limit : Limit) (xs chunk : Bytes)
    → take (window buf limit) xs ≡ chunk
    → payload limit xs ≡ chunk ++ payload (less limit (length chunk)) (drop (length chunk) xs)
payload_chunk buf limit xs chunk e =
    let w = window buf limit in
    payload_split buf limit xs
    ∙ ap (λ (t : Bytes). t ++ payload (less limit (length t)) (drop w xs)) e
    ∙ ap (λ (t : Bytes). chunk ++ payload (less limit (length chunk)) t) (chunk_drop w xs chunk e)

-- One round with a chunk that there is room for.
copy_round :
    (fuel buf : ℕ) (limit : Limit) (copied : ℕ) (c : Copy) (b : ℕ) (bs : Bytes)
    → take (window buf limit) c.src.input ≡ b ∷ bs
    → length (b ∷ bs) ≤ c.dst.room
    → copy_loop (suc fuel) buf limit copied c
      ≡ copy_loop fuel buf
          (less limit (length (b ∷ bs)))
          (copied + length (b ∷ bs))
          (moved c (b ∷ bs))
unfolding copy_loop
copy_round fuel buf limit copied c b bs e h =
    let same = chunk_drop (window buf limit) c.src.input (b ∷ bs) e in
    rw (e, write_fits io (b ∷ bs) c.dst h, same)

copy_round_full :
    (fuel buf : ℕ) (limit : Limit) (copied : ℕ) (c : Copy) (b : ℕ) (bs : Bytes) {n : ℕ} {t : Copy}
    → take (window buf limit) c.src.input ≡ b ∷ bs
    → c.dst.room < length (b ∷ bs)
    → copy_loop (suc fuel) buf limit copied c ≡ (ok n, t)
    → ⊥
unfolding copy_loop
copy_round_full fuel buf limit copied c b bs e h r =
    let failed = rw (e, write_full io (b ∷ bs) c.dst h) at r in cc

pub copy_done :
    (fuel buf : ℕ) (limit : Limit) (copied : ℕ) (c : Copy)
    → take (window buf limit) c.src.input ≡ []
    → copy_loop fuel buf limit copied c ≡ (stop copied (end_of limit c.src.fault), c)
unfolding copy_loop
copy_done zero buf limit copied c e = refl
copy_done (suc fuel) buf limit copied c e = rw (e, copy_loop)

less-less : (limit : Limit) (m n : ℕ) → less (less limit m) n ≡ less limit (m + n)
less-less none m n = refl
less-less (some k) m n = ap some (omega arith)

less-zero : (limit : Limit) → less limit 0 ≡ limit
less-zero none = refl
less-zero (some k) = ap some (omega arith)

moved-nil : (c : Copy) → moved c [] ≡ c
moved-nil c =
    let e : c.dst.room - 0 ≡ c.dst.room = omega arith in
    rw (append-nil c.dst.written, append-nil c.hashed, e)

moved-moved : (c : Copy) (p q : Bytes) → moved (moved c p) q ≡ moved c (p ++ q)
moved-moved c p q =
    let e : c.dst.room - length p - length q ≡ c.dst.room - (length p + length q) = omega arith in
    rw (
      length-append p q,
      append_assoc c.dst.written p q,
      append_assoc c.hashed p q,
      drop-drop (length q) (length p) c.src.input,
      e,
    )

-- Where a copy of the payload `p` ends.
abbrev pub copied_all : Limit → ℕ → Copy → Bytes → Result ℕ × Copy
copied_all limit copied c p =
    (stop (copied + length p) (end_of (less limit (length p)) c.src.fault), moved c p)

copy_loop-nil :
    (fuel buf : ℕ) (limit : Limit) (copied : ℕ) (c : Copy)
    → 0 < buf
    → take (window buf limit) c.src.input ≡ []
    → copy_loop fuel buf limit copied c ≡ copied_all limit copied c (payload limit c.src.input)
copy_loop-nil fuel buf limit copied c h e =
    let k : copied + 0 ≡ copied = omega arith in
    rw (payload_done buf limit c.src.input h e, k, less-zero limit, moved-nil c)
      (copy_done fuel buf limit copied c e)

copied_all-append :
    (limit : Limit) (copied : ℕ) (c : Copy) (p q : Bytes)
    → copied_all (less limit (length p)) (copied + length p) (moved c p) q
      ≡ copied_all limit copied c (p ++ q)
copied_all-append limit copied c p q = rw (
  moved-moved c p q,
  less-less limit (length p) (length q),
  length-append p q,
  add_assoc copied (length p) (length q),
)

-- With as many rounds as bytes, and room for the payload, the whole payload is moved.
pub copy_loop_lem :
    (fuel buf : ℕ) (limit : Limit) (copied : ℕ) (c : Copy)
    → 0 < buf
    → length c.src.input ≤ fuel
    → length (payload limit c.src.input) ≤ c.dst.room
    → copy_loop fuel buf limit copied c ≡ copied_all limit copied c (payload limit c.src.input)
copy_loop_lem zero buf limit copied c h enough room =
    let none_left = length-eq-zero c.src.input (omega arith) in
    copy_loop-nil zero buf limit copied c h (rw (none_left, take-nil (window buf limit)))
copy_loop_lem (suc fuel) buf limit copied c h enough room =
    let input = c.src.input in
    let w = window buf limit in
    elim (List-cases (take w input)) [
      | inl e ↦ copy_loop-nil (suc fuel) buf limit copied c h e
      | inr (b, bs, e) ↦
          let chunk : Bytes = b ∷ bs in
          let left = payload (less limit (length chunk)) (drop (length chunk) input) in
          let split = payload_chunk buf limit input chunk e in
          let lens : length (payload limit input) ≡ length chunk + length left =
            ap length split ∙ length-append chunk left in
          copy_round fuel buf limit copied c b bs e (omega arith)
          ∙ copy_loop_lem fuel buf (less limit (length chunk)) (copied + length chunk)
              (moved c chunk) h (omega (arith, length-drop (length chunk) input)) (omega arith)
          ∙ copied_all-append limit copied c chunk left
          ∙ ap (copied_all limit copied c) (sym split)
    ]

-- `CopyBuffer` moves the whole payload, if there is room for it.
pub copy_buffer_lem :
    (limit : Limit) (c : Copy)
    → length (payload limit c.src.input) ≤ c.dst.room
    → copy_buffer limit c ≡ copied_all limit 0 c (payload limit c.src.input)
unfolding copy_buffer
copy_buffer_lem limit c =
    copy_loop_lem (length c.src.input) buffer_size limit 0 c (omega arith) (omega arith)

-- A copy that reports no error had room for the payload.
copy_loop-fits :
    (fuel buf : ℕ) (limit : Limit) (copied : ℕ) (c : Copy) {n : ℕ} {t : Copy}
    → 0 < buf
    → length c.src.input ≤ fuel
    → copy_loop fuel buf limit copied c ≡ (ok n, t)
    → length (payload limit c.src.input) ≤ c.dst.room
copy_loop-fits zero buf limit copied c h enough e =
    let none_left = length-eq-zero c.src.input (omega arith) in
    let gone = payload_done buf limit c.src.input h (rw (none_left, take-nil (window buf limit))) in
    omega (arith, ap length gone)
copy_loop-fits (suc fuel) buf limit copied c h enough e =
    let input = c.src.input in
    let w = window buf limit in
    elim (List-cases (take w input)) [
      | inl none_read ↦ omega (arith, ap length (payload_done buf limit input h none_read))
      | inr (b, bs, read) ↦
          let chunk : Bytes = b ∷ bs in
          let left = payload (less limit (length chunk)) (drop (length chunk) input) in
          let split = payload_chunk buf limit input chunk read in
          elim (dec_le (length chunk) c.dst.room) [
            | yes room ↦
                let ih =
                  copy_loop-fits fuel buf (less limit (length chunk)) (copied + length chunk)
                    (moved c chunk) h (omega (arith, length-drop (length chunk) input))
                    (sym (copy_round fuel buf limit copied c b bs read room) ∙ e) in
                omega (arith, ap length split, length-append chunk left)
            | no full ↦ absurd (copy_round_full fuel buf limit copied c b bs read (omega arith) e)
          ]
    ]

pub copy_buffer-fits :
    (limit : Limit) (c : Copy) {n : ℕ} {t : Copy}
    → copy_buffer limit c ≡ (ok n, t)
    → length (payload limit c.src.input) ≤ c.dst.room
unfolding copy_buffer
copy_buffer-fits limit c e =
    copy_loop-fits (length c.src.input) buffer_size limit 0 c (omega arith) (omega arith) e
