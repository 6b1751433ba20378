-- ===== src/Strings/Reading.antt =====
-- Reading numbers and switches (src/core/StringUtils.cpp: parseInt, parseBool).
use testforge.Base.{IsInt64}
use testforge.Base.{
  lt→ltb, negsuc, ◌∙◌, ◌<◌, ◌++◌, All-append, if_both, ap, All, suc, zero, refl, ◌≡◌, ◌%◌, ◌/◌, ◌+◌,
  ℕ, ltb, sub_ℕ, not, codes, is_empty, eq_bytes, ℤ, Option, leb, Bool, pos, some, none, [], false,
  true, ◌∷◌, ◌||◌, ◌&&◌, ◌^◌, if◌then◌else◌, ◌==◌, Bytes, arith,
}
use testforge.Decimal.{read_digits-digits, decimal, digits, read_digits}
use testforge.Strings.Case.{is_space, trim_right, trim_left, to_lower, trim}
use testforge.Strings.Pieces.{cut}

-- The digits that `std::strtoll` takes.
unfoldable take_digits : Bytes → Bytes × Bytes
take_digits [] = ([], [])
take_digits (c ∷ s) =
    let later = take_digits s in
    if leb b'0' c && leb c b'9' then (c ∷ later.0, later.1) else ([], c ∷ s)

-- `std::strtoll` in base 10 behind a sign: `none` where the caller sees ERANGE or an `end` that is not
-- the end of the text. Without digits `end` is the start of the text.
unfoldable pub read_int64 : Bool → Bytes → Option ℤ
unfolding take_digits read_digits
read_int64 negative text =
    let parts = take_digits text in
    let n = read_digits 0 parts.0 in
    if is_empty parts.0 || not (is_empty parts.1)
    then none
    else if negative
    then if leb n (2 ^ 63) then some (sub_ℕ 0 n) else none
    else if ltb n (2 ^ 63)
    then some (pos n)
    else none

-- `std::strtoll` on a text without blanks in front of it. The end of an empty text is its start.
unfoldable pub read_signed : Bytes → Option ℤ
unfolding read_int64
read_signed [] = some (pos 0)
read_signed (c ∷ s) =
    let signed = read_int64 (c == b'-') s in
    let bare = read_int64 false (c ∷ s) in if c == b'-' || c == b'+' then signed else bare

-- `parseInt`; `none` is the result `false`. What `c_str` passes on ends at the first zero byte.
unfoldable pub parse_int : Bytes → Option ℤ
unfolding trim read_signed cut
parse_int text =
    let trimmed = trim text in if is_empty trimmed then none else read_signed (cut 0 trimmed).0

unfoldable pub parse_bool : Bytes → Option Bool
unfolding trim to_lower eq_bytes
parse_bool text =
    let lowered = to_lower (trim text) in
    let is : Bytes → Bool = eq_bytes lowered in
    if is (codes "1") || is (codes "true") || is (codes "yes") || is (codes "on")
    then some true
    else if is (codes "0") || is (codes "false") || is (codes "no") || is (codes "off")
    then some false
    else none

-- Neither a blank nor a zero byte.
abbrev IsInk : ℕ → Type 0
IsInk c = (is_space c ≡ false) × ((c == 0) ≡ false)

trim_left-IsInk : (s : Bytes) → All IsInk s → trim_left s ≡ s
unfolding trim_left
trim_left-IsInk [] h = refl
trim_left-IsInk (c ∷ s) h = rw h.0.0 refl

trim_right-IsInk : (s : Bytes) → All IsInk s → trim_right s ≡ s
unfolding trim_right
trim_right-IsInk [] h = refl
trim_right-IsInk (c ∷ s) h = rw (trim_right-IsInk s h.1, h.0.0) (ground arith)

cut-IsInk : (s : Bytes) → All IsInk s → (cut 0 s).0 ≡ s
unfolding cut
cut-IsInk [] h = refl
cut-IsInk (c ∷ s) h = rw h.0.1 (ap (λ t. c ∷ t) (cut-IsInk s h.1))

digits-IsInk : (fuel n : ℕ) → All IsInk (digits fuel n)
unfolding digits is_space
digits-IsInk zero n = tt
digits-IsInk (suc fuel) n =
    let last : All IsInk ((b'0' + n % 10) ∷ []) = ((ground arith, ground arith), tt) in
    if_both (All IsInk) (n / 10 == 0) _ _ last
      (All-append IsInk (digits fuel (n / 10)) _ (digits-IsInk fuel (n / 10)) last)

abbrev pub IsDecimalDigit : ℕ → Type 0
IsDecimalDigit c = (leb b'0' c && leb c b'9') ≡ true

pub digits-All : (fuel n : ℕ) → All IsDecimalDigit (digits fuel n)
unfolding digits
digits-All zero n = tt
digits-All (suc fuel) n =
    let last : All IsDecimalDigit ((b'0' + n % 10) ∷ []) = (ground arith, tt) in
    if_both (All IsDecimalDigit) (n / 10 == 0) _ _ last
      (All-append IsDecimalDigit (digits fuel (n / 10)) _ (digits-All fuel (n / 10)) last)

is_empty-snoc : (s : Bytes) (c : ℕ) → is_empty (s ++ c ∷ []) ≡ false
is_empty-snoc [] c = refl
is_empty-snoc (d ∷ s) c = refl

pub digits_nonempty : (fuel n : ℕ) → is_empty (digits (suc fuel) n) ≡ false
unfolding digits
digits_nonempty fuel n =
    if_both (λ (t : Bytes). is_empty t ≡ false) (n / 10 == 0) _ _ refl
      (is_empty-snoc (digits fuel (n / 10)) _)

take_digits-All : (s : Bytes) → All IsDecimalDigit s → take_digits s ≡ (s, [])
unfolding take_digits
take_digits-All [] h = refl
take_digits-All (c ∷ s) h = rw (h.0, take_digits-All s h.1) refl

read_signed-unsigned :
    (s : Bytes) → All IsDecimalDigit s → is_empty s ≡ false → read_signed s ≡ read_int64 false s
unfolding read_signed
read_signed-unsigned [] h e = cc
read_signed-unsigned (c ∷ s) h e = ground (arith, h.0)

read_below :
    (s : Bytes) (n : ℕ)
    → All IsDecimalDigit s
    → is_empty s ≡ false
    → read_digits 0 s ≡ n
    → n < 2 ^ 63
    → read_int64 false s ≡ some (pos n)
unfolding read_int64
read_below s n h e r b = rw (take_digits-All s h, e, r, lt→ltb n (2 ^ 63) b) refl

read_above :
    (s : Bytes) (n : ℕ)
    → All IsDecimalDigit s
    → is_empty s ≡ false
    → read_digits 0 s ≡ suc n
    → n < 2 ^ 63
    → read_int64 true s ≡ some (negsuc n)
unfolding read_int64
read_above s n h e r b = rw (take_digits-All s h, e, r) (ground arith)

trimmed-IsInk : (s : Bytes) → All IsInk s → is_empty s ≡ false → parse_int s ≡ read_signed s
unfolding parse_int trim
trimmed-IsInk s h e = rw (trim_left-IsInk s h, trim_right-IsInk s h, e, cut-IsInk s h) refl

-- An integer of 64 bits is read back from its decimal text.
pub parse_int-decimal : (n : ℤ) → IsInt64 n → parse_int (decimal n) ≡ some n
unfolding decimal read_signed is_space
parse_int-decimal (pos n) h =
    let s = digits (suc n) n in
    trimmed-IsInk s (digits-IsInk (suc n) n) (digits_nonempty n n)
    ∙ (read_signed-unsigned s (digits-All (suc n) n) (digits_nonempty n n)
        ∙ read_below s n (digits-All (suc n) n) (digits_nonempty n n)
            (read_digits-digits (suc n) n (omega arith)) h)
parse_int-decimal (negsuc n) h =
    let s = digits (suc (suc n)) (suc n) in
    trimmed-IsInk (b'-' ∷ s) ((refl, refl), digits-IsInk (suc (suc n)) (suc n)) refl
    ∙ read_above s n (digits-All (suc (suc n)) (suc n)) (digits_nonempty (suc n) (suc n))
        (read_digits-digits (suc (suc n)) (suc n) (omega arith)) h
