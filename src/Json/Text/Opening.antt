-- ===== src/Json/Text/Opening.antt =====
-- How a written value begins, and the blanks around it (src/core/Json.cpp: skipWhitespace,
-- parseValue, dumpInto).
use testforge.Base.{
  codes, ◌≤◌, Bool-cases, ℕ, Bool, Bytes, ℤ, negsuc, pos, suc, zero, inr, inl, refl, [], false,
  true, ◌++◌, ◌∷◌, ◌||◌, ◌≡◌, ◌*◌, ◌==◌, arith,
}
use testforge.Json.Text.Number.{scan_integer, scan_sign, parse_number, CLibrary, is_digit}
use testforge.Json.Text.Parser.{ParseLimits, parse_value, is_space, peek_is, skip_whitespace}
use testforge.Json.Text.Printer.{spaces, newline, pad_text}
use testforge.Json.Text.Outcome.{failed, done, and_then}
use testforge.Json.{Value}

unfoldable pub starts_number : Bytes → Bool
unfolding is_digit
starts_number [] = false
starts_number (c ∷ s) = c == b'-' || is_digit c

-- The bytes that begin a value, as `parseValue` distinguishes them.
unfoldable pub opens_value : Bytes → Bool
unfolding is_digit
opens_value [] = false
opens_value (c ∷ s) =
    c == b'n'
    || c == b't'
    || c == b'f'
    || c == b'"'
    || c == b'['
    || c == b'{'
    || c == b'-'
    || is_digit c

pub skip_whitespace-opens : (t : Bytes) → opens_value t ≡ true → skip_whitespace t ≡ t
unfolding opens_value skip_whitespace is_space is_digit
skip_whitespace-opens [] h = cc
skip_whitespace-opens (c ∷ s) h = ground arith

pub peek_is-opens : (t : Bytes) → opens_value t ≡ true → peek_is b']' t ≡ false
unfolding opens_value peek_is is_digit
peek_is-opens [] h = cc
peek_is-opens (c ∷ s) h = ground arith

pub skip_whitespace_twice : (t : Bytes) → skip_whitespace (skip_whitespace t) ≡ skip_whitespace t
unfolding skip_whitespace
skip_whitespace_twice [] = refl
skip_whitespace_twice (c ∷ s) = elim (Bool-cases (is_space c)) [
  | inl e ↦ rw (e) (skip_whitespace_twice s)
  | inr e ↦ rw (e, e) refl
]

skip_whitespace-spaces : (n : ℕ) (s : Bytes) → skip_whitespace (spaces n ++ s) ≡ skip_whitespace s
unfolding skip_whitespace spaces is_space
skip_whitespace-spaces zero s = refl
skip_whitespace-spaces (suc n) s = skip_whitespace-spaces n s

pub skip_whitespace-pad_text :
    (indent : ℤ) (depth : ℕ) (s : Bytes)
    → skip_whitespace (pad_text indent depth ++ s) ≡ skip_whitespace s
unfolding pad_text
skip_whitespace-pad_text (pos n) depth s = skip_whitespace-spaces (n * depth) s
skip_whitespace-pad_text (negsuc n) depth s = refl

pub skip_whitespace-newline :
    (indent : ℤ) (s : Bytes) → skip_whitespace (newline indent ++ s) ≡ skip_whitespace s
unfolding newline skip_whitespace is_space
skip_whitespace-newline (pos n) s = refl
skip_whitespace-newline (negsuc n) s = refl

not_zero : (c : ℕ) → is_digit c ≡ false → (c == b'0') ≡ false
unfolding is_digit
not_zero c h = ground arith

pub starts_number-opens : (t s : Bytes) → starts_number t ≡ true → opens_value (t ++ s) ≡ true
unfolding starts_number opens_value
starts_number-opens [] s h = cc
starts_number-opens (c ∷ t) s h = ground arith

pub starts_number-append : (t s : Bytes) → starts_number t ≡ true → starts_number (t ++ s) ≡ true
unfolding starts_number
starts_number-append [] s h = cc
starts_number-append (c ∷ t) s h = h

module _ (libc : CLibrary) where
  parse_number-refuses :
      (c : ℕ) (s : Bytes)
      → (c == b'-') ≡ false
      → is_digit c ≡ false
      → parse_number libc (c ∷ s) ≡ failed (codes "invalid number") (c ∷ s)
  unfolding parse_number scan_sign scan_integer and_then
  parse_number-refuses c s m d = rw (m, not_zero c d, d) refl

  -- What is read as a number begins as one.
  pub parse_number-starts :
      (t u : Bytes) (v : Value) → parse_number libc t ≡ done v u → starts_number t ≡ true
  unfolding parse_number starts_number scan_sign scan_integer and_then
  parse_number-starts [] u v h = cc
  parse_number-starts (c ∷ s) u v h = elim (Bool-cases (c == b'-')) [
    | inl m ↦ rw m refl
    | inr m ↦ elim (Bool-cases (is_digit c)) [
      | inl d ↦ rw (m, d) refl
      | inr d ↦ cc (h, parse_number-refuses c s m d)
    ]
  ]

  -- `parseValue` hands on what begins as a number.
  pub parse_value-number :
      (limits : ParseLimits) (fuel depth : ℕ) (t : Bytes)
      → depth ≤ limits.max_depth
      → starts_number t ≡ true
      → parse_value libc limits (suc fuel) depth t ≡ parse_number libc t
  unfolding parse_value starts_number peek_is is_digit
  parse_value-number limits fuel depth [] d h = cc
  parse_value-number limits fuel depth (c ∷ s) d h = ground arith
