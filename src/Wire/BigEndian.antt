-- ===== src/Wire/BigEndian.antt =====
-- `encoding/binary`'s big-endian words of `k` bytes, as internal/wire/protocol.go uses them.
use native.Mathlib.Nat.{pow-suc, pow-succ', mul_assoc, mul-le-mul_right}
use mathlib.Core.Path.{ap₂}
use mathlib.Core.List.{reverse, reverse-cons, reverse-reverse}
use go_xport.Common.{
  ℕ, zero, suc, ◌+◌, ◌*◌, ◌/◌, ◌%◌, ◌^◌, ◌≤◌, ◌<◌, ◌≡◌, refl, ap, ◌∙◌, [], ◌∷◌, ◌++◌, Bytes,
  IsBytes, arith, length, length-append, All-reverse, length-reverse, sym,
}

-- `PutUint16`, `PutUint64`: the most significant byte first
unfoldable pub put_uint : ℕ → ℕ → Bytes
put_uint zero v = []
put_uint (suc k) v = put_uint k (v / 256) ++ (v % 256 ∷ [])

-- `Uint16`, `Uint64`: `acc` is the value of the bytes before
abbrev pub uint_from : ℕ → Bytes → ℕ
uint_from acc [] = acc
uint_from acc (b ∷ bs) = uint_from (acc * 256 + b) bs

unfoldable pub uint : Bytes → ℕ
uint bs = uint_from 0 bs

pub length-put_uint : (k v : ℕ) → length (put_uint k v) ≡ k
unfolding put_uint
length-put_uint zero v = refl
length-put_uint (suc k) v =
    omega (arith, length-append (put_uint k (v / 256)) (v % 256 ∷ []), length-put_uint k (v / 256))

uint_from-append :
    (acc : ℕ) (xs ys : Bytes) → uint_from acc (xs ++ ys) ≡ uint_from (uint_from acc xs) ys
uint_from-append acc [] ys = refl
uint_from-append acc (x ∷ xs) ys = uint_from-append (acc * 256 + x) xs ys

-- A value that fits `k` bytes is read back.
pub uint-put_uint : (k v : ℕ) → v < 256 ^ k → uint (put_uint k v) ≡ v
unfolding uint put_uint
uint-put_uint zero v h = omega arith
uint-put_uint (suc k) v h =
    let high : uint_from 0 (put_uint k (v / 256)) ≡ v / 256 =
      uint-put_uint k (v / 256) (omega (arith, pow-suc 256 k)) in
    uint_from-append 0 (put_uint k (v / 256)) (v % 256 ∷ []) ∙ omega arith

uint_from-bound :
    (acc : ℕ) (bs : Bytes) → IsBytes bs → uint_from acc bs < (acc + 1) * 256 ^ length bs
uint_from-bound acc [] h = omega arith
uint_from-bound acc (b ∷ bs) (hb, h) =
    let step : (acc * 256 + b + 1) * 256 ^ length bs ≤ ((acc + 1) * 256) * 256 ^ length bs =
      mul-le-mul_right (256 ^ length bs) (omega arith) in
    let law : ((acc + 1) * 256) * 256 ^ length bs ≡ (acc + 1) * 256 ^ suc (length bs) =
      mul_assoc (acc + 1) 256 (256 ^ length bs)
      ∙ ap (◌*◌ (acc + 1)) (sym (pow-succ' 256 (length bs))) in
    omega (arith, uint_from-bound (acc * 256 + b) bs h, step, law)

-- `k` bytes hold a value below `256 ^ k`.
pub uint-bound : (k : ℕ) (bs : Bytes) → IsBytes bs → length bs ≡ k → uint bs < 256 ^ k
unfolding uint
uint-bound k bs h e = rw (← e) (omega (arith, uint_from-bound 0 bs h))

put_uint-reverse : (r : Bytes) → IsBytes r → put_uint (length r) (uint (reverse r)) ≡ reverse r
unfolding put_uint uint
put_uint-reverse [] h = refl
put_uint-reverse (b ∷ r) (hb, h) =
    let ih : put_uint (length r) (uint_from 0 (reverse r)) ≡ reverse r = put_uint-reverse r h in
    rw (reverse-cons b r, uint_from-append 0 (reverse r) (b ∷ []))
      (ap₂ ◌++◌ (ap (put_uint (length r)) (omega arith) ∙ ih) (ap (λ x. x ∷ []) (omega arith)))

-- Reading `k` bytes and writing the value gives the same bytes.
pub put_uint-uint : (k : ℕ) (bs : Bytes) → IsBytes bs → length bs ≡ k → put_uint k (uint bs) ≡ bs
put_uint-uint k bs h e =
    let law : put_uint (length (reverse bs)) (uint (reverse (reverse bs))) ≡ reverse (reverse bs) =
      put_uint-reverse (reverse bs) (All-reverse _ bs h) in
    rw (← e, ← length-reverse bs) (rw (reverse-reverse bs) at law)
