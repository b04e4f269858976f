-- ===== src/Common/Text.antt =====
-- Byte strings as lists of numbers, with equality and the tests of Go's package `strings`.
use Prim.Native.Nat.{◌+◌, ◌-◌, ◌/◌, ◌%◌, ℕ, ◌<◌}
use Prim.Native.Char.{code}
use Prim.Native.String.{String}
use mathlib.Core.Path.{◌≡◌, refl, ap, sym, ◌∙◌}
use mathlib.Core.Logic.{◌↔◌}
use mathlib.Core.Bool.{Bool, true, false, ◌&&◌, ◌||◌}
use mathlib.Core.List.{List, [], ◌∷◌, ◌++◌, map, reverse, reverse-append, reverse-reverse}
use native.Mathlib.Omega.{arith}
use go_xport.Common.Tests.{ltb, leb, if◌then◌else◌, ◌==◌, ==_iff, &&-eq-true}
use go_xport.Common.Lists.{All}

abbrev pub Bytes : Type 0
Bytes = List ℕ

-- The code points of a text literal: its bytes, as every literal used here is ASCII.
abbrev pub codes : String → Bytes
codes String.[] = []
codes (String.◌∷◌ c s) = code c ∷ codes s

-- Each element fits a byte.
abbrev pub IsBytes : Bytes → Type 0
IsBytes = All (λ b. b < 256)

-- `==` on strings, `bytes.Equal`
unfoldable pub equal : (left right : Bytes) → Bool
equal [] [] = true
equal [] (d ∷ ds) = false
equal (c ∷ cs) [] = false
equal (c ∷ cs) (d ∷ ds) = c == d && equal cs ds

pub equal_iff : (left right : Bytes) → (equal left right ≡ true) ↔ (left ≡ right)
unfolding equal
equal_iff [] [] = ground arith
equal_iff [] (d ∷ ds) = ground arith
equal_iff (c ∷ cs) [] = ground arith
equal_iff (c ∷ cs) (d ∷ ds) = ground (arith, equal_iff cs ds)

pub equal_refl : (a : Bytes) → equal a a ≡ true
equal_refl a = (equal_iff a a).1 refl

pub equal_comm : (a b : Bytes) → equal a b ≡ equal b a
unfolding equal
equal_comm (x ∷ a) (y ∷ b) = ground (arith, equal_comm a b)
equal_comm [] [] = refl
equal_comm [] (y ∷ b) = refl
equal_comm (x ∷ a) [] = refl

-- `strings.HasPrefix`
unfoldable pub has_prefix : Bytes → Bytes → Bool
has_prefix s [] = true
has_prefix [] (p ∷ ps) = false
has_prefix (c ∷ cs) (p ∷ ps) = c == p && has_prefix cs ps

-- `strings.HasSuffix`
unfoldable pub has_suffix : Bytes → Bytes → Bool
unfolding has_prefix
has_suffix s t = has_prefix (reverse s) (reverse t)

-- `strings.Contains` for a text of one byte
unfoldable pub contains_byte : Bytes → ℕ → Bool
contains_byte [] b = false
contains_byte (c ∷ cs) b = c == b || contains_byte cs b

pub has_prefix_iff : (s t : Bytes) → (has_prefix s t ≡ true) ↔ ((rest : Bytes) × (s ≡ t ++ rest))
unfolding has_prefix
has_prefix_iff s [] = (λ h. (s, refl), λ h. refl)
has_prefix_iff [] (p ∷ ps) = (λ h. cc, λ (r, h). cc)
has_prefix_iff (c ∷ cs) (p ∷ ps) = (
  λ h.
      let (a, b) = (&&-eq-true (c == p) (has_prefix cs ps)).0 h in
      let (rest, e) = (has_prefix_iff cs ps).0 b in (rest, cc ((==_iff c p).0 a)),
  λ (rest, e).
      (&&-eq-true (c == p) (has_prefix cs ps)).1
        ((==_iff c p).1 (cc), (has_prefix_iff cs ps).1 (rest, cc)),
)

pub has_suffix_iff : (s t : Bytes) → (has_suffix s t ≡ true) ↔ ((front : Bytes) × (s ≡ front ++ t))
unfolding has_suffix
has_suffix_iff s t = (
  λ h.
      let (rest, e) = (has_prefix_iff (reverse s) (reverse t)).0 h in
      (
        reverse rest,
        sym (reverse-reverse s)
            ∙ ap reverse e
            ∙ reverse-append (reverse t) rest
            ∙ ap (◌++◌ (reverse rest)) (reverse-reverse t),
      ),
  λ (front, e).
      (has_prefix_iff (reverse s) (reverse t)).1
        (reverse front, ap reverse e ∙ reverse-append front t),
)

-- `hex.EncodeToString`
abbrev pub hex_digit : ℕ → ℕ
hex_digit n = if ltb n 10 then b'0' + n else b'a' - 10 + n

unfoldable pub hex : Bytes → Bytes
hex [] = []
hex (b ∷ bs) = hex_digit (b / 16) ∷ hex_digit (b % 16) ∷ hex bs

-- `strings.ReplaceAll` of a text of one byte by the empty text
unfoldable pub remove_byte : ℕ → Bytes → Bytes
remove_byte b [] = []
remove_byte b (c ∷ cs) = let rest = remove_byte b cs in if c == b then rest else c ∷ rest

-- `strings.ToLower` on ASCII text
abbrev pub lower_byte : ℕ → ℕ
lower_byte c = if leb b'A' c && leb c b'Z' then c + 32 else c

unfoldable pub to_lower : Bytes → Bytes
to_lower s = map lower_byte s

-- `strings.ToUpper` on ASCII text
abbrev pub upper_byte : ℕ → ℕ
upper_byte c = if leb b'a' c && leb c b'z' then c - 32 else c

unfoldable pub to_upper : Bytes → Bytes
to_upper s = map upper_byte s

-- `strings.TrimSpace` on ASCII text
abbrev pub is_space : ℕ → Bool
is_space c = c == 32 || (leb 9 c && leb c 13)

unfoldable pub trim_left : Bytes → Bytes
trim_left [] = []
trim_left (c ∷ cs) = let rest = trim_left cs in if is_space c then rest else c ∷ cs

unfoldable pub trim_space : Bytes → Bytes
trim_space s = reverse (trim_left (reverse (trim_left s)))

-- `strings.Split` at a text of one byte: the part in front of the first one, and the others
unfoldable pub split_from : ℕ → Bytes → Bytes × List Bytes
split_from b [] = ([], [])
split_from b (c ∷ cs) =
    let (part, parts) = split_from b cs in if c == b then ([], part ∷ parts) else (c ∷ part, parts)

unfoldable pub split : ℕ → Bytes → List Bytes
unfolding split_from
split b s = let (part, parts) = split_from b s in part ∷ parts
