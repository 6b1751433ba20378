-- ===== src/Json/Text/Scanning.antt =====
-- Reading a number ends, leaves less text and gives an integer of 64 bits or a double
-- (src/core/Json.cpp: Parser::parseNumber).
use testforge.Base.{IsInt64}
use testforge.Base.{
  ltb→lt, ltb, leb→le, is_empty, leb, sub_ℕ, not, none, if_cases, ◌^◌, Option, ◌++◌, Bool, length,
  ℤ, ℕ, Bytes, some, [], false, true, ◌∷◌, ◌||◌, ◌<◌, ◌≤◌, ◌==◌, arith,
}
use testforge.Json.Text.Number.{
  is_digit, parse_number, number_of, CLibrary, strtoll, scan_exponent, scan_power, scan_fraction,
  scan_some_digits, scan_integer, scan_sign, scan_digits,
}
use testforge.Json.Text.Parser.{ParseLimits}
use testforge.Json.Text.Shrinking.{Shrinks, Keeps}
use testforge.Json.Text.Outcome.{
  Ensures-weaken, Ensures-and_then, Ensures, Ensures-if, rejected, holds,
}
use testforge.Json.Text.Document.{Document}
use testforge.Json.{integer, double, Value}
use testforge.Decimal.{read_digits}

scan_digits-Keeps : (s : Bytes) → length (scan_digits s).1 ≤ length s
unfolding scan_digits
scan_digits-Keeps [] = omega arith
scan_digits-Keeps (c ∷ s) = ground (arith, scan_digits-Keeps s)

scan_sign-Keeps : (s : Bytes) → Keeps s (scan_sign s)
unfolding scan_sign
scan_sign-Keeps [] = holds (omega arith)
scan_sign-Keeps (c ∷ s) =
    Ensures-if (c == b'-') (λ _. holds (omega arith)) (λ _. holds (omega arith))

scan_integer-Shrinks : (s : Bytes) → Shrinks s (scan_integer s)
unfolding scan_integer
scan_integer-Shrinks [] = rejected
scan_integer-Shrinks (c ∷ s) =
    Ensures-if (c == b'0') (λ _. holds (omega arith))
      λ _. Ensures-if (is_digit c) (λ _. holds (omega (arith, scan_digits-Keeps s))) (λ _. rejected)

scan_some_digits-Keeps : (prefix message s : Bytes) → Keeps s (scan_some_digits prefix message s)
unfolding scan_some_digits
scan_some_digits-Keeps prefix message [] = rejected
scan_some_digits-Keeps prefix message (c ∷ s) =
    Ensures-if (is_digit c) (λ _. holds (omega (arith, scan_digits-Keeps s))) (λ _. rejected)

scan_fraction-Keeps : (s : Bytes) → Keeps s (scan_fraction s)
unfolding scan_fraction
scan_fraction-Keeps [] = holds (omega arith)
scan_fraction-Keeps (c ∷ s) =
    Ensures-if (c == b'.')
      (λ _. Ensures-weaken (scan_some_digits-Keeps (c ∷ []) _ s) λ _ rest h. omega arith)
      (λ _. holds (omega arith))

scan_power-Keeps : (prefix s : Bytes) → Keeps s (scan_power prefix s)
unfolding scan_power
scan_power-Keeps prefix [] = rejected
scan_power-Keeps prefix (c ∷ s) =
    Ensures-if (c == b'+' || c == b'-')
      (λ _. Ensures-weaken (scan_some_digits-Keeps _ _ s) λ _ rest h. omega arith)
      (λ _. scan_some_digits-Keeps _ _ (c ∷ s))

scan_exponent-Keeps : (s : Bytes) → Keeps s (scan_exponent s)
unfolding scan_exponent
scan_exponent-Keeps [] = holds (omega arith)
scan_exponent-Keeps (c ∷ s) =
    Ensures-if (c == b'e' || c == b'E')
      (λ _. Ensures-weaken (scan_power-Keeps (c ∷ []) s) λ _ rest h. omega arith)
      (λ _. holds (omega arith))

abbrev Fits : Option ℤ → Type 0
Fits none = Unit
Fits (some n) = IsInt64 n

sub_ℕ-IsInt64 : (n : ℕ) → n ≤ 2 ^ 63 → IsInt64 (sub_ℕ 0 n)
sub_ℕ-IsInt64 n h = if_cases IsInt64 (leb n 0) _ _ (λ _. omega arith) (λ e. ground arith)

strtoll-Fits : (s : Bytes) → Fits (strtoll s)
unfolding strtoll
strtoll-Fits [] = omega arith
strtoll-Fits (c ∷ s) =
    if_cases Fits (c == b'-') _ _
      (λ _.
        if_cases Fits (leb (read_digits 0 s) (2 ^ 63)) _ _
          (λ le. sub_ℕ-IsInt64 (read_digits 0 s) (leb→le (read_digits 0 s) (2 ^ 63) le)) (λ _. tt))
      (λ _.
        if_cases Fits (ltb (read_digits 0 (c ∷ s)) (2 ^ 63)) _ _
          (λ lt. ltb→lt (read_digits 0 (c ∷ s)) (2 ^ 63) lt) (λ _. tt))

module _ (libc : CLibrary) (limits : ParseLimits) (depth : ℕ) (d : depth ≤ limits.max_depth) where
  number_of-Document :
      (literal : Bytes) (is_double : Bool)
      → Document (λ _. Unit) limits depth (number_of libc literal is_double)
  unfolding number_of Document
  number_of-Document literal true = (d, tt)
  number_of-Document literal false = read (strtoll literal) (strtoll-Fits literal)
    where
      read :
          (o : Option ℤ)
          → Fits o
          → Document
              (λ _. Unit)
              limits
              depth
              (elim o as (λ _. Value) [ none ↦ double (libc.strtod literal) | some n ↦ integer n ])
      read none h = (d, tt)
      read (some n) h = (d, h)

  pub parse_number-Ensures :
      (s : Bytes)
      → Ensures
          (λ v rest. (length rest < length s) × Document (λ _. Unit) limits depth v)
          (parse_number libc s)
  unfolding parse_number
  parse_number-Ensures s = Ensures-and_then (scan_sign-Keeps s) λ sign s₁ h₁.
      Ensures-and_then (scan_integer-Shrinks s₁) λ whole s₂ h₂.
        Ensures-and_then (scan_fraction-Keeps s₂) λ fraction s₃ h₃.
          Ensures-and_then (scan_exponent-Keeps s₃) λ power s₄ h₄. holds (
            omega arith,
            number_of-Document (sign ++ whole ++ fraction ++ power)
                (not (is_empty (fraction ++ power))),
          )
