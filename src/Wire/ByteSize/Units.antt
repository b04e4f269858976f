-- ===== src/Wire/ByteSize/Units.antt =====
-- What ParseByteSize of internal/wire/protocol.go makes of a number with a unit.
use go_xport.Common.{◌⊎◌, ℕ, ◌*◌, ◌^◌, ◌≤◌, ◌<◌, ◌≡◌, true, false}
use go_xport.Wire.ByteSize.{Floats, is_numeric}

abbrev pub IsLetter : ℕ → Type 0
IsLetter c = ((b'A' ≤ c) × (c ≤ b'Z')) ⊎ ((b'a' ≤ c) × (c ≤ b'z'))

abbrev pub IsNumeric : ℕ → Type 0
IsNumeric c = is_numeric c ≡ true

-- What the standard for floating-point numbers promises of natural numbers below 2^53: they are
-- exact, and so is a product that stays below.
pub record IsExact (fl : Floats) : Type 0 where
  pub mul-of_nat :
      (a b : ℕ)
      → a < 2 ^ 53
      → b < 2 ^ 53
      → a * b < 2 ^ 53
      → fl.mul (fl.of_nat a) (fl.of_nat b) ≡ fl.of_nat (a * b)
  pub to_uint64-of_nat : (a : ℕ) → a < 2 ^ 53 → fl.to_uint64 (fl.of_nat a) ≡ a
  pub is_negative-of_nat : (a : ℕ) → fl.is_negative (fl.of_nat a) ≡ false
