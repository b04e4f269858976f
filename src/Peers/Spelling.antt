-- ===== src/Peers/Spelling.antt =====
-- The spellings of a fingerprint that NormalizeFingerprint of internal/tlsutil/verify.go takes for
-- the same.
use go_xport.Common.{
  trim_space-clean, ℕ, ◌≤◌, ◌≡◌, ◌⊎◌, inl, inr, refl, sym, subst, ap, ◌∙◌, false, [], ◌∷◌, map,
  Bytes, ◌==◌, lower_byte, is_space, remove_byte, to_lower, All, arith,
}
use go_xport.Peers.{normalize_fingerprint}

-- A hexadecimal digit in small letters.
abbrev pub IsDigit : ℕ → Type 0
IsDigit d = ((b'0' ≤ d) × (d ≤ b'9')) ⊎ ((b'a' ≤ d) × (d ≤ b'f'))

-- A text that spells a fingerprint: its digits in order, small or capital, with colons and spaces
-- anywhere.
pub data Spells : Bytes → Bytes → Type 0 where
  done : Spells [] []
  separator :
      {c : ℕ} {text fp : Bytes} → (c ≡ b':') ⊎ (c ≡ b' ') → Spells text fp → Spells (c ∷ text) fp
  digit :
      {c d : ℕ} {text fp : Bytes}
      → lower_byte c ≡ d
      → IsDigit d
      → Spells text fp
      → Spells (c ∷ text) (d ∷ fp)

-- A digit is neither a separator nor white space, before or after its letters are made small.
pub digit-clean :
    (c : ℕ)
    → IsDigit (lower_byte c)
    → (c == b':' ≡ false) × (c == b' ' ≡ false) × (is_space c ≡ false)
digit-clean c (inl h) = (ground arith, ground arith, ground arith)
digit-clean c (inr h) = (ground arith, ground arith, ground arith)

-- What is left once the separators are dropped.
abbrev bare : Bytes → Bytes
bare text = remove_byte b' ' (remove_byte b':' text)

Spells-bare :
    {text fp : Bytes}
    → Spells text fp
    → All (λ c. is_space c ≡ false) (bare text) × (map lower_byte (bare text) ≡ fp)
unfolding remove_byte
Spells-bare Spells.done = (tt, refl)
Spells-bare (Spells.separator (inl e) s) = rw e (Spells-bare s)
Spells-bare (Spells.separator (inr e) s) = rw e (Spells-bare s)
Spells-bare (Spells.digit {c} {d} e is_digit s) =
    let (colon, space, clean) = digit-clean c (subst IsDigit (sym e) is_digit) in
    let (rest, spelt) = Spells-bare s in rw (colon, space) ((clean, rest), rw e (ap (◌∷◌ d) spelt))

-- NormalizeFingerprint gives the same fingerprint for all its spellings: hexadecimal digits, small
-- or capital, with colons and spaces anywhere.
pub normalize_fingerprint-Spells :
    {text fp : Bytes} → Spells text fp → normalize_fingerprint text ≡ fp
unfolding normalize_fingerprint to_lower
normalize_fingerprint-Spells {text} s =
    let (clean, spelt) = Spells-bare s in
    ap (map lower_byte) (trim_space-clean (bare text) clean) ∙ spelt
