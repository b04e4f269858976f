-- ===== src/Common/Family.antt =====
-- Families over numbered goroutines: one member set, and sums.
use Prim.Native.Nat.{ℕ, zero, suc, ◌+◌, ◌*◌, ◌<◌, ◌≤◌}
use mathlib.Core.Path.{◌≡◌, refl, sym, ap, subst}
use mathlib.Core.Logic.{inl, inr}
use mathlib.Core.Bool.{false}
use native.Mathlib.Decide.{dec_lt}
use native.Mathlib.Omega.{arith}
use go_xport.Common.Tests.{◌==◌, ==_iff, ==_ne_iff, Bool-cases, if◌then◌else◌}

-- A map of connections with one entry set.
abbrev pub set : {A : Type 0} → (ℕ → A) → ℕ → A → ℕ → A
set f i a j = if j == i then a else f j

-- A map with one entry set is good where the old one is, and the new value.
pub set_all :
    {A : Type 0} (P : ℕ → A → Type 0) (f : ℕ → A) (i : ℕ) (a : A)
    → ((j : ℕ) → j == i ≡ false → P j (f j))
    → P i a
    → (j : ℕ) → P j (set f i a j)
set_all P f i a old new j = elim (Bool-cases (j == i)) [
  | inl e ↦ rw e (subst (λ k. P k a) (sym ((==_iff j i).0 e)) new)
  | inr e ↦ rw e (old j e)
]

abbrev pub sum : ℕ → (ℕ → ℕ) → ℕ
sum zero f = 0
sum (suc n) f = sum n f + f n

pub sum-same : (n : ℕ) (f g : ℕ → ℕ) → ((i : ℕ) → i < n → f i ≡ g i) → sum n f ≡ sum n g
sum-same zero f g h = refl
sum-same (suc n) f g h =
    omega (arith, sum-same n f g (λ i lt. h i (omega arith)), h n (omega arith))

pub lt_of_ne : {n i : ℕ} → i < suc n → (n ≡ i → ⊥) → i < n
lt_of_ne {n} {i} lt ne = elim (dec_lt i n) [
  | yes below ↦ below
  | no last ↦ absurd (ne (omega arith))
]

-- One term out of the sum.
pub sum-split : (n i : ℕ) (f : ℕ → ℕ) → i < n → sum n f ≡ sum n (set f i 0) + f i
sum-split zero i f lt = absurd (omega arith)
sum-split (suc n) i f lt = elim (Bool-cases (n == i)) [
  | inl e ↦
      let here = (==_iff n i).0 e in
      rw e (
        omega (
          arith,
          sum-same n f (set f i 0)
              (λ j below. rw ((==_ne_iff j i).1 (λ same. omega (arith, here))) refl),
          ap f here,
        ))
  | inr e ↦ rw e (omega (arith, sum-split n i f (lt_of_ne lt ((==_ne_iff n i).0 e))))
]

pub sum_zero : (n : ℕ) (f : ℕ → ℕ) → ((i : ℕ) → f i ≡ 0) → sum n f ≡ 0
sum_zero zero f h = refl
sum_zero (suc n) f h = omega (arith, sum_zero n f h, h n)

-- One member set: its term changes, and no other.
pub sum-set :
    {A : Type 0} (f : A → ℕ) (n : ℕ) (w : ℕ → A) (i : ℕ) (a : A)
    → i < n
    → sum n (λ j. f (set w i a j)) + f (w i) ≡ sum n (λ j. f (w j)) + f a
sum-set f n w i a lt =
    let zeroed =
      sum-same n (set (λ j. f (set w i a j)) i 0) (set (λ j. f (w j)) i 0)
        (λ j below. elim (Bool-cases (j == i)) [ inl e ↦ rw e refl | inr e ↦ rw e refl ]) in
    let mine : f (set w i a i) ≡ f a = rw ((==_iff i i).1 refl) refl in
    omega (
      arith,
      sum-split n i (λ j. f (set w i a j)) lt,
      sum-split n i (λ j. f (w j)) lt,
      zeroed,
      mine,
    )

pub sum_le : (n most : ℕ) (f : ℕ → ℕ) → ((i : ℕ) → f i ≤ most) → sum n f ≤ n * most
sum_le zero most f h = omega arith
sum_le (suc n) most f h = omega (arith, sum_le n most f h, h n)
