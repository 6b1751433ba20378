-- ===== src/Json/Text/Number.antt =====
-- Numbers in JSON text (src/core/Json.cpp: Parser::parseNumber, formatDouble).
--
-- `std::snprintf` with `%.*g` and `std::strtod` are parameters. `std::strtoll` is written out.
use testforge.Base.{
  is_empty, ltb, sub_ℕ, ℤ, leb, any, not, Bool, Option, codes, pos, suc, zero, some, none, [],
  false, true, ◌++◌, ◌∷◌, ◌||◌, ◌&&◌, ◌^◌, ◌%◌, ◌/◌, if◌then◌else◌, ◌==◌, Bytes, ℕ,
}
use testforge.Json.Text.Outcome.{pure, ◌>>=◌, failed, done, and_then, Parser}
use testforge.Decimal.{read_digits}
use testforge.Json.{integer, double, Value}

-- What the platform's C library does with a double, given by its 64 bits: `print_general` is
-- `snprintf` with `%.*g` and a precision, `strtod` reads a number whole.
pub record CLibrary : Type 0 where
  pub print_general : ℕ → ℕ → Bytes
  pub strtod : Bytes → ℕ

unfoldable pub is_digit : ℕ → Bool
is_digit c = leb b'0' c && leb c b'9'

-- The loops that skip the digits, with the bytes that they pass.
unfoldable pub scan_digits : Bytes → Bytes × Bytes
unfolding is_digit
scan_digits [] = ([], [])
scan_digits (c ∷ s) =
    let later = scan_digits s in if is_digit c then (c ∷ later.0, later.1) else ([], c ∷ s)

unfoldable pub scan_sign : Parser Bytes
scan_sign [] = done [] []
scan_sign (c ∷ s) = if c == b'-' then done (c ∷ []) s else done [] (c ∷ s)

unfoldable pub scan_integer : Parser Bytes
unfolding scan_digits
scan_integer [] = failed (codes "truncated number") []
scan_integer (c ∷ s) =
    if c == b'0'
    then done (c ∷ []) s
    else if is_digit c
    then done (c ∷ (scan_digits s).0) (scan_digits s).1
    else failed (codes "invalid number") (c ∷ s)

-- At least one digit, behind a point or in an exponent; `prefix` was passed before it.
unfoldable pub scan_some_digits : Bytes → Bytes → Parser Bytes
unfolding scan_digits
scan_some_digits prefix message [] = failed message []
scan_some_digits prefix message (c ∷ s) =
    if is_digit c
    then done (prefix ++ c ∷ (scan_digits s).0) (scan_digits s).1
    else failed message (c ∷ s)

unfoldable pub scan_fraction : Parser Bytes
unfolding scan_some_digits
scan_fraction [] = done [] []
scan_fraction (c ∷ s) =
    let digits = scan_some_digits (c ∷ []) (codes "expected digit after decimal point") s in
    if c == b'.' then digits else done [] (c ∷ s)

unfoldable pub scan_power : Bytes → Parser Bytes
unfolding scan_some_digits
scan_power prefix [] = failed (codes "expected digit in exponent") []
scan_power prefix (c ∷ s) =
    let signed = scan_some_digits (prefix ++ c ∷ []) (codes "expected digit in exponent") s in
    let bare = scan_some_digits prefix (codes "expected digit in exponent") (c ∷ s) in
    if c == b'+' || c == b'-' then signed else bare

unfoldable pub scan_exponent : Parser Bytes
unfolding scan_power
scan_exponent [] = done [] []
scan_exponent (c ∷ s) =
    let power = scan_power (c ∷ []) s in if c == b'e' || c == b'E' then power else done [] (c ∷ s)

-- `std::strtoll` on a sign and digits; `none` is ERANGE.
unfoldable pub strtoll : Bytes → Option ℤ
unfolding read_digits
strtoll [] = some (pos 0)
strtoll (c ∷ s) =
    let below = read_digits 0 s in
    let above = read_digits 0 (c ∷ s) in
    if c == b'-'
    then if leb below (2 ^ 63) then some (sub_ℕ 0 below) else none
    else if ltb above (2 ^ 63)
    then some (pos above)
    else none

module _ (libc : CLibrary) where
  -- The end of `parseNumber`: an integer too large for 64 bits becomes a double.
  unfoldable pub number_of : Bytes → Bool → Value
  unfolding strtoll
  number_of literal true = double (libc.strtod literal)
  number_of literal false = elim (strtoll literal) [
    | none ↦ double (libc.strtod literal)
    | some n ↦ integer n
  ]

  unfoldable pub parse_number : Parser Value
  unfolding number_of scan_sign scan_integer scan_fraction scan_exponent and_then
  parse_number = do
    sign ← scan_sign
    whole ← scan_integer
    fraction ← scan_fraction
    power ← scan_exponent
    pure (number_of (sign ++ whole ++ fraction ++ power) (not (is_empty (fraction ++ power))))

-- `v == w` of two doubles, neither of them a NaN: both zeros are equal.
unfoldable pub same_double : ℕ → ℕ → Bool
same_double v w = v == w || v % 2 ^ 63 == 0 && w % 2 ^ 63 == 0

-- `std::isfinite`.
unfoldable pub is_finite : ℕ → Bool
is_finite bits = not (bits / 2 ^ 52 % 2 ^ 11 == 2047)

unfoldable pub has_point : Bytes → Bool
has_point = any λ c. c == b'.' || c == b'e' || c == b'E' || c == b'n'

module _ (libc : CLibrary) where
  -- The loop over the precisions, `k` of them left: the first text that reads back. A negative
  -- result of `snprintf`, which has no place here, never happens for these formats.
  unfoldable pub shortest : ℕ → ℕ → ℕ → Bytes
  unfolding same_double
  shortest zero precision bits = libc.print_general 17 bits
  shortest (suc k) precision bits =
      let candidate = libc.print_general precision bits in
      let later = shortest k (suc precision) bits in
      if same_double (libc.strtod candidate) bits then candidate else later

  unfoldable pub format_double : ℕ → Bytes
  unfolding is_finite shortest has_point
  format_double bits =
      let text = shortest 16 1 bits in
      if is_finite bits then if has_point text then text else text ++ codes ".0" else codes "null"
