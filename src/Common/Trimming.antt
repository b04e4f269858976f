-- ===== src/Common/Trimming.antt =====
-- Texts that are trimmed, made small, cut, or cleared of a byte: the calls of Go's package `strings`
-- that the program makes, one after the other.
use Prim.Native.Nat.{ℕ, ◌<◌}
use mathlib.Core.Path.{◌≡◌, refl, sym, ap, subst, ◌∙◌}
use mathlib.Core.Logic.{inl, inr}
use mathlib.Core.Bool.{false}
use mathlib.Core.List.{
  List, [], ◌∷◌, ◌++◌, append-nil, reverse, reverse-reverse, reverse-cons, reverse-append,
}
use native.Mathlib.Omega.{arith}
use go_xport.Common.Lists.{All, All-reverse}
use go_xport.Common.Tests.{◌==◌, Bool-cases}
use go_xport.Common.Text.{
  Bytes, lower_byte, is_space, remove_byte, to_lower, trim_left, trim_space, split_from, split,
}

-- A text that does not begin with white space.
abbrev Starts : Bytes → Type 0
Starts [] = Unit {0}
Starts (c ∷ cs) = is_space c ≡ false

trim_left-Starts : (s : Bytes) → Starts (trim_left s)
unfolding trim_left
trim_left-Starts [] = tt
trim_left-Starts (c ∷ cs) = elim (Bool-cases (is_space c)) [
  | inl e ↦ rw e (trim_left-Starts cs)
  | inr e ↦ rw e e
]

trim_left-same : (s : Bytes) → Starts s → trim_left s ≡ s
unfolding trim_left
trim_left-same [] h = refl
trim_left-same (c ∷ cs) h = rw h refl

trim_left-last :
    (s : Bytes) (c : ℕ) → is_space c ≡ false → trim_left (s ++ (c ∷ [])) ≡ trim_left s ++ (c ∷ [])
unfolding trim_left
trim_left-last [] c h = rw h refl
trim_left-last (d ∷ ds) c h = elim (Bool-cases (is_space d)) [
  | inl e ↦ rw e (trim_left-last ds c h)
  | inr e ↦ rw e refl
]

-- White space is dropped at the end of a text.
abbrev trim_right : Bytes → Bytes
trim_right s = reverse (trim_left (reverse s))

trim_right-Starts : (s : Bytes) → Starts s → Starts (trim_right s)
unfolding trim_left
trim_right-Starts [] h = tt
trim_right-Starts (c ∷ cs) h =
    subst Starts
      (sym (
        ap (λ t. reverse (trim_left t)) (reverse-cons c cs)
        ∙ ap reverse (trim_left-last (reverse cs) c h)
        ∙ reverse-append (trim_left (reverse cs)) (c ∷ [])))
      h

pub trim_space-trim_space : (s : Bytes) → trim_space (trim_space s) ≡ trim_space s
unfolding trim_space
trim_space-trim_space s =
    let start = trim_left-Starts s in
    let end = trim_left-Starts (reverse (trim_left s)) in
    ap trim_right
      (trim_left-same (trim_right (trim_left s)) (trim_right-Starts (trim_left s) start))
    ∙ ap (λ t. reverse (trim_left t)) (reverse-reverse (trim_left (reverse (trim_left s))))
    ∙ ap reverse (trim_left-same (trim_left (reverse (trim_left s))) end)

-- Small letters and white space.
lower_byte-is_space : (c : ℕ) → is_space (lower_byte c) ≡ is_space c
lower_byte-is_space c = ground arith

lower_byte-lower_byte : (c : ℕ) → lower_byte (lower_byte c) ≡ lower_byte c
lower_byte-lower_byte c = ground arith

-- A byte in front of the small letters is not made.
lower_byte-ne : (b c : ℕ) → b < b'a' → c == b ≡ false → lower_byte c == b ≡ false
lower_byte-ne b c low h = ground arith

pub to_lower-to_lower : (s : Bytes) → to_lower (to_lower s) ≡ to_lower s
unfolding to_lower
to_lower-to_lower [] = refl
to_lower-to_lower (c ∷ cs) = rw (lower_byte-lower_byte c, to_lower-to_lower cs) refl

trim_left-to_lower : (s : Bytes) → trim_left (to_lower s) ≡ to_lower (trim_left s)
unfolding trim_left to_lower
trim_left-to_lower [] = refl
trim_left-to_lower (c ∷ cs) = elim (Bool-cases (is_space c)) [
  | inl e ↦ rw (lower_byte-is_space c, e) (trim_left-to_lower cs)
  | inr e ↦ rw (lower_byte-is_space c, e) refl
]

to_lower-append : (s t : Bytes) → to_lower (s ++ t) ≡ to_lower s ++ to_lower t
unfolding to_lower
to_lower-append [] t = refl
to_lower-append (c ∷ cs) t = ap (◌∷◌ (lower_byte c)) (to_lower-append cs t)

to_lower-reverse : (s : Bytes) → to_lower (reverse s) ≡ reverse (to_lower s)
unfolding to_lower
to_lower-reverse [] = refl
to_lower-reverse (c ∷ cs) =
    ap to_lower (reverse-cons c cs)
    ∙ to_lower-append (reverse cs) (c ∷ [])
    ∙ ap (λ t. t ++ (lower_byte c ∷ [])) (to_lower-reverse cs)
    ∙ sym (reverse-cons (lower_byte c) (to_lower cs))

trim_left-clean : (s : Bytes) → All (λ c. is_space c ≡ false) s → trim_left s ≡ s
unfolding trim_left
trim_left-clean [] h = refl
trim_left-clean (c ∷ cs) h = rw (h.0) refl

pub trim_space-clean : (s : Bytes) → All (λ c. is_space c ≡ false) s → trim_space s ≡ s
unfolding trim_space
trim_space-clean s h =
    ap (λ t. reverse (trim_left (reverse t))) (trim_left-clean s h)
    ∙ ap reverse (trim_left-clean (reverse s) (All-reverse (λ c. is_space c ≡ false) s h))
    ∙ reverse-reverse s

pub trim_space-to_lower : (s : Bytes) → trim_space (to_lower s) ≡ to_lower (trim_space s)
unfolding trim_space
trim_space-to_lower s =
    ap trim_right (trim_left-to_lower s)
    ∙ ap (λ t. reverse (trim_left t)) (sym (to_lower-reverse (trim_left s)))
    ∙ ap reverse (trim_left-to_lower (reverse (trim_left s)))
    ∙ sym (to_lower-reverse (trim_left (reverse (trim_left s))))

-- A byte that does not occur is not removed, and does not cut the text.
abbrev pub Lacks : ℕ → Bytes → Type 0
Lacks b s = All (λ c. c == b ≡ false) s

pub remove_byte-same : (b : ℕ) (s : Bytes) → Lacks b s → remove_byte b s ≡ s
unfolding remove_byte
remove_byte-same b [] h = refl
remove_byte-same b (c ∷ cs) h = rw (h.0, remove_byte-same b cs h.1) refl

-- A part that is not cut, in front of a text that is cut at once, or is empty.
pub split_from-part :
    (b : ℕ) (part rest : Bytes) (tail : List Bytes)
    → Lacks b part
    → split_from b rest ≡ ([], tail)
    → split_from b (part ++ rest) ≡ (part, tail)
unfolding split_from
split_from-part b [] rest tail h e = e
split_from-part b (c ∷ cs) rest tail h e = rw (h.0, split_from-part b cs rest tail h.1 e) refl

split_from-same : (b : ℕ) (s : Bytes) → Lacks b s → split_from b s ≡ (s, [])
unfolding split_from
split_from-same b s h =
    subst (λ t. split_from b t ≡ (s, [])) (append-nil s) (split_from-part b s [] [] h refl)

pub split-same : (b : ℕ) (s : Bytes) → Lacks b s → split b s ≡ s ∷ []
unfolding split
split-same b s h = ap (λ (cut : Bytes × List Bytes). cut.0 ∷ cut.1) (split_from-same b s h)

pub remove_byte-Lacks : (b : ℕ) (s : Bytes) → Lacks b (remove_byte b s)
unfolding remove_byte
remove_byte-Lacks b [] = tt
remove_byte-Lacks b (c ∷ cs) = elim (Bool-cases (c == b)) [
  | inl e ↦ rw e (remove_byte-Lacks b cs)
  | inr e ↦ rw e (e, remove_byte-Lacks b cs)
]

pub remove_byte-All : (P : ℕ → Type 0) (b : ℕ) (s : Bytes) → All P s → All P (remove_byte b s)
unfolding remove_byte
remove_byte-All P b [] h = tt
remove_byte-All P b (c ∷ cs) h = elim (Bool-cases (c == b)) [
  | inl e ↦ rw e (remove_byte-All P b cs h.1)
  | inr e ↦ rw e (h.0, remove_byte-All P b cs h.1)
]

trim_left-All : (P : ℕ → Type 0) (s : Bytes) → All P s → All P (trim_left s)
unfolding trim_left
trim_left-All P [] h = tt
trim_left-All P (c ∷ cs) h = elim (Bool-cases (is_space c)) [
  | inl e ↦ rw e (trim_left-All P cs h.1)
  | inr e ↦ rw e h
]

pub trim_space-All : (P : ℕ → Type 0) (s : Bytes) → All P s → All P (trim_space s)
unfolding trim_space
trim_space-All P s h =
    let back = All-reverse P (trim_left s) (trim_left-All P s h) in
    All-reverse P (trim_left (reverse (trim_left s))) (trim_left-All P (reverse (trim_left s)) back)

pub to_lower-Lacks : (b : ℕ) (s : Bytes) → b < b'a' → Lacks b s → Lacks b (to_lower s)
unfolding to_lower
to_lower-Lacks b [] low h = tt
to_lower-Lacks b (c ∷ cs) low h = (lower_byte-ne b c low h.0, to_lower-Lacks b cs low h.1)

pub split_from-Lacks :
    (b : ℕ) (s : Bytes) → Lacks b (split_from b s).0 × All (Lacks b) (split_from b s).1
unfolding split_from
split_from-Lacks b [] = (tt, tt)
split_from-Lacks b (c ∷ cs) =
    let (first, rest) = split_from-Lacks b cs in
    elim (Bool-cases (c == b)) [
      | inl e ↦ rw e (tt, (first, rest))
      | inr e ↦ rw e ((e, first), rest)
    ]
