-- ===== src/Json/Text/Integer.antt =====
-- An integer of 64 bits is written and read back: `std::to_string` against `parseNumber`
-- (src/core/Json.cpp).
use testforge.Base.{
  IsInt64, ◌≢◌, ap, some, lt→ltb, inr, inl, Bool-cases, append-nil, if_cases, All-append, All,
  negsuc, pos, suc, zero, refl, [], false, true, ◌++◌, ◌∷◌, ◌≡◌, ◌<◌, ◌^◌, ◌%◌, ◌/◌, ◌+◌, ◌==◌,
  Bytes, ℤ, ℕ, arith,
}
use testforge.Json.Text.Number.{
  strtoll, number_of, scan_sign, parse_number, is_digit, CLibrary, scan_integer, scan_digits,
}
use testforge.Json.Text.Outcome.{and_then, done}
use testforge.Decimal.{digits, read_digits-digits, read_digits, decimal}
use testforge.Json.{integer}

abbrev IsDigit : ℕ → Type 0
IsDigit c = is_digit c ≡ true

-- Digits without a leading zero.
data Leading : Bytes → Type 0 where
  leading : {c : ℕ} {s : Bytes} → (c == b'0') ≡ false → IsDigit c → All IsDigit s → Leading (c ∷ s)

Leading-snoc : (s : Bytes) (d : ℕ) → IsDigit d → Leading s → Leading (s ++ d ∷ [])
Leading-snoc s d p (leading {s = t} nz dc ds) =
    leading nz dc (All-append IsDigit t (d ∷ []) ds (p, tt))

digits-Leading : (fuel n : ℕ) → 0 < n → n < fuel → Leading (digits fuel n)
unfolding digits is_digit
digits-Leading zero n p h = absurd (omega arith)
digits-Leading (suc fuel) n p h =
    let last : IsDigit (b'0' + n % 10) = ground arith in
    if_cases Leading (n / 10 == 0) _ _ (λ e. leading (ground arith) last tt)
      λ ne. Leading-snoc _ _ last (digits-Leading fuel (n / 10) (ground arith) (omega arith))

scan_digits-All : (s : Bytes) → All IsDigit s → scan_digits s ≡ (s, [])
unfolding scan_digits
scan_digits-All [] h = refl
scan_digits-All (c ∷ s) (d, ds) = rw (d, scan_digits-All s ds) refl

-- What the integer part reads whole.
scan_integer-Leading : (s : Bytes) → Leading s → scan_integer s ≡ done s []
unfolding scan_integer
scan_integer-Leading s (leading {s = t} nz d ds) = rw (nz, d, scan_digits-All t ds) refl

scan_integer-digits : (n : ℕ) → scan_integer (digits (suc n) n) ≡ done (digits (suc n) n) []
unfolding digits scan_integer
scan_integer-digits zero = refl
scan_integer-digits (suc n) =
    scan_integer-Leading _ (digits-Leading (suc (suc n)) (suc n) (omega arith) (omega arith))

not_minus : (c : ℕ) (s : Bytes) → scan_integer (c ∷ s) ≡ done (c ∷ s) [] → (c == b'-') ≡ false
unfolding scan_integer is_digit
not_minus c s e = elim (Bool-cases (c == b'-')) [ inl m ↦ ground (arith, e) | inr n ↦ n ]

scan_integer-nonempty : scan_integer [] ≢ done [] []
unfolding scan_integer
scan_integer-nonempty = cc

strtoll-above :
    (c : ℕ) (s : Bytes) (n : ℕ)
    → (c == b'-') ≡ false
    → read_digits 0 (c ∷ s) ≡ n
    → n < 2 ^ 63
    → strtoll (c ∷ s) ≡ some (pos n)
unfolding strtoll
strtoll-above c s n m r h = rw (m, r, lt→ltb n (2 ^ 63) h) refl

strtoll-below :
    (s : Bytes) (n : ℕ)
    → read_digits 0 s ≡ suc n
    → n < 2 ^ 63
    → strtoll (b'-' ∷ s) ≡ some (negsuc n)
unfolding strtoll
strtoll-below s n r h = rw (r) (ground arith)

module _ (libc : CLibrary) where
  number_of-integer : (t : Bytes) (n : ℤ) → strtoll t ≡ some n → number_of libc t false ≡ integer n
  unfolding number_of
  number_of-integer t n e = rw (e, number_of) refl

  parse_number-whole :
      (s : Bytes) (n : ℕ)
      → scan_integer s ≡ done s []
      → read_digits 0 s ≡ n
      → n < 2 ^ 63
      → parse_number libc s ≡ done (integer (pos n)) []
  unfolding parse_number scan_sign and_then
  parse_number-whole [] n e r h = absurd (scan_integer-nonempty e)
  parse_number-whole (c ∷ s) n e r h =
      rw (not_minus c s e, e, append-nil s, append-nil s)
        (ap (λ v. done v [])
          (number_of-integer (c ∷ s) (pos n) (strtoll-above c s n (not_minus c s e) r h)))

  parse_number-minus :
      (s : Bytes) (n : ℕ)
      → scan_integer s ≡ done s []
      → read_digits 0 s ≡ suc n
      → n < 2 ^ 63
      → parse_number libc (b'-' ∷ s) ≡ done (integer (negsuc n)) []
  unfolding parse_number scan_sign and_then
  parse_number-minus s n e r h =
      rw (e, append-nil s, append-nil s)
        (ap (λ v. done v []) (number_of-integer (b'-' ∷ s) (negsuc n) (strtoll-below s n r h)))

  pub parse_number-decimal :
      (n : ℤ) → IsInt64 n → parse_number libc (decimal n) ≡ done (integer n) []
  unfolding decimal
  parse_number-decimal (pos n) h =
      parse_number-whole _ n (scan_integer-digits n) (read_digits-digits (suc n) n (omega arith)) h
  parse_number-decimal (negsuc n) h =
      parse_number-minus _ n (scan_integer-digits (suc n))
        (read_digits-digits (suc (suc n)) (suc n) (omega arith)) h
