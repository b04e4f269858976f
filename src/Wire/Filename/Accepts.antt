-- ===== src/Wire/Filename/Accepts.antt =====
-- Which names ValidateFilename accepts, described without its tests.
use go_xport.Common.{
  ℕ, ◌≤◌, ◌≡◌, ◌≢◌, refl, true, false, ◌&&◌, [], ◌∷◌, ◌++◌, Bytes, codes, arith, leb, length, all,
  All, ◌↔◌, has_suffix, has_suffix_iff, contains_byte, leb→le, le→leb, &&-eq-true, Bool-cases, inl,
  inr, ◌⊎◌,
}
use go_xport.Wire.Io.{ok, err, invalid_filename, path_separator}
use go_xport.Wire.Filename.{is_alnum, is_name_byte, matches_filename, validate_filename}

-- A letter or a digit.
abbrev pub IsAlnum : ℕ → Type 0
IsAlnum c = ((b'A' ≤ c) × (c ≤ b'Z')) ⊎ ((b'a' ≤ c) × (c ≤ b'z')) ⊎ ((b'0' ≤ c) × (c ≤ b'9'))

abbrev pub IsNameByte : ℕ → Type 0
IsNameByte c = IsAlnum c ⊎ (c ≡ b'.') ⊎ (c ≡ b'_') ⊎ (c ≡ b'-')

abbrev pub StartsAlnum : Bytes → Type 0
StartsAlnum [] = ⊥
StartsAlnum (c ∷ cs) = IsAlnum c

-- A basename of 1 to 200 portable bytes that starts with a letter or digit, and does not end like
-- a file that is still being written.
pub record IsPortable (name : Bytes) : Type 0 where
  pub starts : StartsAlnum name
  pub bytes : All IsNameByte name
  pub short : length name ≤ 200
  pub not_tmp : (front : Bytes) → name ≢ front ++ codes ".tmp"
  pub not_part : (front : Bytes) → name ≢ front ++ codes ".part"

is_alnum_iff : (c : ℕ) → (is_alnum c ≡ true) ↔ IsAlnum c
unfolding is_alnum
is_alnum_iff c = (λ h. ground arith, λ h. ground arith)

is_name_byte_iff : (c : ℕ) → (is_name_byte c ≡ true) ↔ IsNameByte c
unfolding is_name_byte
is_name_byte_iff c = (λ h. ground arith, λ h. ground arith)

all_iff : (cs : Bytes) → (all is_name_byte cs ≡ true) ↔ All IsNameByte cs
all_iff [] = (λ h. tt, λ h. refl)
all_iff (c ∷ cs) = (
  λ h.
      let (a, b) = (&&-eq-true (is_name_byte c) (all is_name_byte cs)).0 h in
      ((is_name_byte_iff c).0 a, (all_iff cs).0 b),
  λ (a, b).
      (&&-eq-true (is_name_byte c) (all is_name_byte cs)).1
        ((is_name_byte_iff c).1 a, (all_iff cs).1 b),
)

-- No portable byte is a path separator.
pub portable-no_separator :
    (b : ℕ) (name : Bytes)
    → (b ≡ b'/') ⊎ (b ≡ b'\\')
    → All IsNameByte name
    → contains_byte name b ≡ false
unfolding contains_byte
portable-no_separator b [] s h = refl
portable-no_separator b (c ∷ cs) s (h, t) = ground (arith, portable-no_separator b cs s t)

matches_filename_iff :
    (name : Bytes)
    → (matches_filename name ≡ true)
      ↔ (StartsAlnum name × All IsNameByte name × (length name ≤ 200))
unfolding matches_filename
matches_filename_iff [] = (λ h. cc, λ h. absurd h.0)
matches_filename_iff (c ∷ cs) = (
  λ h.
      let (front, short) =
        (&&-eq-true (is_alnum c && all is_name_byte cs) (leb (length cs) 199)).0 h in
      let (first, rest) = (&&-eq-true (is_alnum c) (all is_name_byte cs)).0 front in
      let start = (is_alnum_iff c).0 first in
      (start, (inl start, (all_iff cs).0 rest), omega (arith, leb→le _ _ short)),
  λ (start, (_, rest), short).
      (&&-eq-true (is_alnum c && all is_name_byte cs) (leb (length cs) 199)).1 (
        (&&-eq-true (is_alnum c) (all is_name_byte cs)).1
            ((is_alnum_iff c).1 start, (all_iff cs).1 rest),
        le→leb _ _ (omega arith),
      ),
)

not_suffix : (name t : Bytes) → has_suffix name t ≡ false → (front : Bytes) → name ≢ front ++ t
not_suffix name t h front e = cc ((has_suffix_iff name t).1 (front, e))

suffix_false : (name t : Bytes) → ((front : Bytes) → name ≢ front ++ t) → has_suffix name t ≡ false
suffix_false name t h = elim (Bool-cases (has_suffix name t)) [
  | inl e ↦ let (front, p) = (has_suffix_iff name t).0 e in absurd (h front p)
  | inr e ↦ e
]

-- ValidateFilename accepts exactly the names of 1 to 200 letters, digits, dots, underscores and
-- dashes that start with a letter or digit and end neither in `.tmp` nor in `.part`.
pub validate_filename_iff : (name : Bytes) → (validate_filename name ≡ ok tt) ↔ IsPortable name
unfolding validate_filename
validate_filename_iff name = (
  λ h.
      let parts : (matches_filename name ≡ true)
          × (has_suffix name (codes ".tmp") ≡ false)
          × (has_suffix name (codes ".part") ≡ false) =
        (ground arith, ground arith, ground arith) in
      let (start, bytes, short) = (matches_filename_iff name).0 parts.0 in
      record {
        starts = start;
        bytes = bytes;
        short = short;
        not_tmp = not_suffix name (codes ".tmp") parts.1;
        not_part = not_suffix name (codes ".part") parts.2;
      },
  λ v. rw (
    portable-no_separator b'/' name (inl refl) v.bytes,
    portable-no_separator b'\\' name (inr refl) v.bytes,
    suffix_false name (codes ".tmp") v.not_tmp,
    suffix_false name (codes ".part") v.not_part,
    (matches_filename_iff name).1 (v.starts, v.bytes, v.short),
  ),
)

contains_byte-append : (front rest : Bytes) (b : ℕ) → contains_byte (front ++ (b ∷ rest)) b ≡ true
unfolding contains_byte
contains_byte-append [] rest b = ground arith
contains_byte-append (c ∷ cs) rest b = ground (arith, contains_byte-append cs rest b)

-- A name with a slash or a backslash anywhere is refused with the error for path separators.
pub validate_filename-separator :
    (front rest : Bytes) (b : ℕ)
    → (b ≡ b'/') ⊎ (b ≡ b'\\')
    → validate_filename (front ++ (b ∷ rest)) ≡ err (invalid_filename path_separator)
unfolding validate_filename
validate_filename-separator front rest b (inl e) = rw (e, contains_byte-append front rest b'/')
validate_filename-separator front rest b (inr e) =
    rw (e, contains_byte-append front rest b'\\') (ground arith)
