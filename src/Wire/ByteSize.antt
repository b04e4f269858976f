-- ===== src/Wire/ByteSize.antt =====
-- ParseByteSize of internal/wire/protocol.go. Floating-point numbers and `strconv.ParseFloat` are an
-- argument. Texts are ASCII.
pub mod Units
use go_xport.Common.{
  ℕ, ◌*◌, ◌==◌, Bool, ◌&&◌, ◌||◌, List, [], ◌∷◌, Option, none, some, Bytes, codes, equal, leb,
  to_upper, trim_space, if◌then◌else◌,
}

pub record Floats : Type 1 where
  pub Float : Type 0
  pub parse_float : Bytes → Option Float
  pub of_nat : ℕ → Float
  pub is_negative : Float → Bool
  pub mul : Float → Float → Float
  pub to_uint64 : Float → ℕ

pub data SizeError : Type 0 where
  empty_size invalid_number negative_size : SizeError
  unknown_unit : Bytes → SizeError

pub data Size : Type 0 where
  size : ℕ → Size
  no_size : SizeError → Size

-- `unicode.IsDigit(rune(s[idx])) || s[idx] == '.'`
abbrev pub is_numeric : ℕ → Bool
is_numeric c = (leb b'0' c && leb c b'9') || c == b'.'

-- The text cut in front of its unit.
unfoldable pub cut_unit : Bytes → Bytes × Bytes
cut_unit [] = ([], [])
cut_unit (c ∷ cs) =
    let (num, unit) = cut_unit cs in if is_numeric c then (c ∷ num, unit) else ([], c ∷ cs)

-- The cases of the switch, in order.
abbrev pub multipliers : List (Bytes × ℕ)
multipliers =
    (codes "", 1)
    ∷ (codes "B", 1)
    ∷ (codes "K", 1000)
    ∷ (codes "KB", 1000)
    ∷ (codes "KIB", 1024)
    ∷ (codes "M", 1000 * 1000)
    ∷ (codes "MB", 1000 * 1000)
    ∷ (codes "MIB", 1024 * 1024)
    ∷ (codes "G", 1000 * 1000 * 1000)
    ∷ (codes "GB", 1000 * 1000 * 1000)
    ∷ (codes "GIB", 1024 * 1024 * 1024)
    ∷ (codes "T", 1000 * 1000 * 1000 * 1000)
    ∷ (codes "TB", 1000 * 1000 * 1000 * 1000)
    ∷ (codes "TIB", 1024 * 1024 * 1024 * 1024)
    ∷ []

unfoldable pub multiplier_of : Bytes → List (Bytes × ℕ) → Option ℕ
multiplier_of unit [] = none
multiplier_of unit ((name, n) ∷ rest) = if equal unit name then some n else multiplier_of unit rest

module _ (fl : Floats) where
  open fl use {Float, parse_float, of_nat, is_negative, mul, to_uint64}

  abbrev pub scaled : Bytes → Float → Option ℕ → Size
  scaled unit val none = no_size (unknown_unit unit)
  scaled unit val (some n) = size (to_uint64 (mul val (of_nat n)))

  abbrev pub with_number : Bytes → Option Float → Size
  with_number unit none = no_size invalid_number
  with_number unit (some val) =
      if is_negative val
      then no_size negative_size
      else scaled unit val (multiplier_of unit multipliers)

  abbrev pub of_text : Bytes → Size
  of_text [] = no_size empty_size
  of_text (c ∷ cs) =
      let (num, unit) = cut_unit (c ∷ cs) in
      with_number (trim_space (to_upper unit)) (parse_float (trim_space num))

  unfoldable pub parse_byte_size : Bytes → Size
  parse_byte_size s = of_text (trim_space s)
