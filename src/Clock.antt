-- ===== src/Clock.antt =====
-- Points in time as texts (src/core/Clock.cpp: toIso8601, fromIso8601, toEpochMillis,
-- fromEpochMillis). A point in time is its signed number of milliseconds since the epoch.
use testforge.Base.{eqb_ℤ, length, ltb, sub_ℕ, negsuc, pos, suc, zero, some, none, [], ◌++◌, ◌∷◌, ◌%◌, ◌*◌, ◌-◌, ◌+◌, if◌then◌else◌, ◌==◌, ◌+ℤ◌, List, quot, Bytes, ℕ, ℤ, arith}
use testforge.Strings.Case.{is_space}
use mathlib.Core.Option
use testforge.Json.Text.Number.{is_digit}
use testforge.Decimal.{decimal}
use mathlib.Core.Option.{Option}

-- `std::tm`, with the year and the month as they are written.
pub record Tm : Type 0 where
  pub year : ℤ
  pub month : ℤ
  pub day : ℤ
  pub hour : ℤ
  pub minute : ℤ
  pub second : ℤ

-- gmtime_r and timegm of the C library.
pub record Calendar : Type 0 where
  pub gmtime : ℤ → Tm
  pub timegm : Tm → ℤ

-- A number in at least so many places: `%02d`, and `setw` with the fill character 0.
unfoldable pub zeros : ℕ → Bytes → Bytes
zeros zero text = text
zeros (suc n) text = b'0' ∷ zeros n text

unfoldable pub padded : ℕ → ℤ → Bytes
unfolding zeros decimal
padded width n = zeros (width - length (decimal n)) (decimal n)

-- `%Y-%m-%dT%H:%M:%S` of strftime.
unfoldable pub format_tm : Tm → Bytes
unfolding padded
format_tm tm =
    padded 4 tm.year
    ++ (b'-' ∷ (padded 2 tm.month
      ++ (b'-' ∷ (padded 2 tm.day
        ++ (b'T' ∷ (padded 2 tm.hour
          ++ (b':' ∷ (padded 2 tm.minute ++ (b':' ∷ padded 2 tm.second)))))))))

-- `sinceEpoch - seconds`, whose sign is that of the time.
unfoldable pub millis_of : ℤ → ℤ
millis_of (pos n) = pos (n % 1000)
millis_of (negsuc n) = sub_ℕ 0 (suc n % 1000)

unfoldable pub to_iso8601 : Calendar → ℤ → Bytes
unfolding quot format_tm millis_of padded
to_iso8601 c t =
    format_tm (c.gmtime (quot t 1000)) ++ (b'.' ∷ (padded 3 (millis_of t) ++ b'Z' ∷ []))

-- `%Nd` of sscanf: white space, a sign and digits, N places at most behind the white space. `none`
-- where there is no digit.
unfoldable pub scan_places : ℕ → ℕ → Bytes → ℕ × Bytes
unfolding is_digit
scan_places zero acc s = (acc, s)
scan_places (suc n) acc [] = (acc, [])
scan_places (suc n) acc (c ∷ s) =
    let more = scan_places n (acc * 10 + (c - b'0')) s in
    if is_digit c then more else (acc, c ∷ s)

unfoldable pub scan_unsigned : ℕ → Bytes → Option (ℕ × Bytes)
unfolding is_digit scan_places
scan_unsigned width [] = none
scan_unsigned width (c ∷ s) =
    if is_digit c then some (scan_places width 0 (c ∷ s)) else none

unfoldable pub skip_blanks : Bytes → Bytes
unfolding is_space
skip_blanks [] = []
skip_blanks (c ∷ s) = let rest = skip_blanks s in if is_space c then rest else c ∷ s

-- The digits behind a sign.
unfoldable pub scan_signed : ℕ → Bytes → Option (ℤ × Bytes)
unfolding scan_unsigned
scan_signed width [] = none
scan_signed width (c ∷ s) =
    let plain = Option.map (λ (n, rest). (pos n, rest)) (scan_unsigned width (c ∷ s)) in
    let plus = Option.map (λ (n, rest). (pos n, rest)) (scan_unsigned (width - 1) s) in
    let minus = Option.map (λ (n, rest). (sub_ℕ 0 n, rest)) (scan_unsigned (width - 1) s) in
    if c == b'-' then minus else if c == b'+' then plus else plain

unfoldable pub scan_int : ℕ → Bytes → Option (ℤ × Bytes)
unfolding scan_signed skip_blanks
scan_int width s = scan_signed width (skip_blanks s)

-- The literal of the format behind a field.
unfoldable pub behind_literal : ℕ → Bytes → Option Bytes
behind_literal literal [] = none
behind_literal literal (c ∷ s) = if c == literal then some s else none

-- The fields that sscanf reads, each with its places and the literal behind it, up to the first that
-- does not fit.
unfoldable pub scan_fields : List (ℕ × ℕ) → Bytes → List ℤ
unfolding scan_int behind_literal
scan_fields [] s = []
scan_fields ((width, literal) ∷ fields) s = elim (scan_int width s) [
  | none ↦ []
  | some (n, rest) ↦ n ∷ (elim (behind_literal literal rest) [
      | none ↦ []
      | some later ↦ scan_fields fields later
  ])
]

-- `%4d-%2d-%2dT%2d:%2d:%2d.%3d`; nothing is read behind the last field.
abbrev pub iso_fields : List (ℕ × ℕ)
iso_fields =
    (4, b'-') ∷ (2, b'-') ∷ (2, b'T') ∷ (2, b':') ∷ (2, b':') ∷ (2, b'.') ∷ (3, b'Z') ∷ []

unfoldable pub in_millis : ℤ → ℤ
in_millis (pos n) = pos (n * 1000)
in_millis (negsuc n) = sub_ℕ 0 (suc n * 1000)

-- -1 is what timegm returns when it fails.
unfoldable pub time_of : Calendar → List ℤ → ℤ
unfolding in_millis ◌+ℤ◌
time_of c (year ∷ month ∷ day ∷ hour ∷ minute ∷ second ∷ more) =
    let epoch = c.timegm (record {
      year = year;
      month = month;
      day = day;
      hour = hour;
      minute = minute;
      second = second;
    }) in
    let millis = elim more as (λ _. ℤ) [ [] ↦ pos 0 | ms ∷ _ ↦ ms ] in
    if eqb_ℤ epoch (negsuc 0) then pos 0 else in_millis epoch +ℤ millis
time_of c _ = pos 0

unfoldable pub from_iso8601 : Calendar → Bytes → ℤ
unfolding scan_fields time_of
from_iso8601 c text =
    if ltb (length text) 19 then pos 0 else time_of c (scan_fields iso_fields text)
