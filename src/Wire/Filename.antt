-- ===== src/Wire/Filename.antt =====
-- ValidateFilename of internal/wire/protocol.go. A name is the bytes of a Go string.
pub mod Accepts
use go_xport.Common.{
  ℕ, Bool, false, ◌&&◌, ◌||◌, [], ◌∷◌, Bytes, codes, leb, ◌==◌, if◌then◌else◌, length, all,
  has_suffix, contains_byte,
}
use go_xport.Wire.Io.{
  Result, ok, err, invalid_filename, path_separator, temporary_suffix, bad_pattern,
}

-- [A-Za-z0-9]
unfoldable pub is_alnum : ℕ → Bool
is_alnum c = (leb b'A' c && leb c b'Z') || (leb b'a' c && leb c b'z') || (leb b'0' c && leb c b'9')

-- [A-Za-z0-9._-]
unfoldable pub is_name_byte : ℕ → Bool
unfolding is_alnum
is_name_byte c = is_alnum c || c == b'.' || c == b'_' || c == b'-'

-- `filenameRegex.MatchString`: ^[A-Za-z0-9][A-Za-z0-9._-]{0,199}$
unfoldable pub matches_filename : Bytes → Bool
unfolding is_alnum is_name_byte
matches_filename [] = false
matches_filename (c ∷ cs) = is_alnum c && all is_name_byte cs && leb (length cs) 199

abbrev pub is_temporary : Bytes → Bool
is_temporary name = has_suffix name (codes ".tmp") || has_suffix name (codes ".part")

unfoldable pub validate_filename : Bytes → Result (Unit {0})
unfolding matches_filename has_suffix contains_byte
validate_filename name =
    if contains_byte name b'/' || contains_byte name b'\\'
    then err (invalid_filename path_separator)
    else if is_temporary name
    then err (invalid_filename temporary_suffix)
    else if matches_filename name
    then ok tt
    else err (invalid_filename bad_pattern)
