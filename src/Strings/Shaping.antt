-- ===== src/Strings/Shaping.antt =====
-- Texts brought to a length, and bytes in hexadecimal (src/core/StringUtils.cpp: truncate, toHex,
-- padRight, padLeft).
use testforge.Base.{
  ◌<◌, ◌*◌, All, length-append, if_cases, ap, take, min, max, codes, leb, length, ltb, suc, zero,
  refl, [], ◌++◌, ◌∷◌, ◌∙◌, ◌≡◌, ◌≤◌, ◌%◌, ◌/◌, ◌-◌, ◌+◌, if◌then◌else◌, Bytes, ℕ, arith,
}

abbrev marker : Bytes
marker = codes "... [truncated]"

unfoldable pub truncate : Bytes → ℕ → Bytes
truncate text max_length =
    if leb (length text) max_length
    then text
    else if leb max_length (length marker)
    then take max_length text
    else take (max_length - length marker) text ++ marker

unfoldable hex_of : ℕ → ℕ
hex_of d = if ltb d 10 then b'0' + d else b'a' + (d - 10)

unfoldable pub to_hex : Bytes → Bytes
unfolding hex_of
to_hex [] = []
to_hex (c ∷ s) = hex_of (c / 16) ∷ hex_of (c % 16) ∷ to_hex s

unfoldable blanks : ℕ → Bytes
blanks zero = []
blanks (suc n) = b' ' ∷ blanks n

unfoldable pub pad_right : Bytes → ℕ → Bytes
unfolding blanks
pad_right text width =
    if ltb (length text) width then text ++ blanks (width - length text) else text

unfoldable pub pad_left : Bytes → ℕ → Bytes
unfolding blanks
pad_left text width = if ltb (length text) width then blanks (width - length text) ++ text else text

length-take : (n : ℕ) (s : Bytes) → n ≤ length s → length (take n s) ≡ n
length-take zero s h = refl
length-take (suc n) [] h = absurd (omega arith)
length-take (suc n) (c ∷ s) h = ap suc (length-take n s (omega arith))

length-blanks : (n : ℕ) → length (blanks n) ≡ n
unfolding blanks
length-blanks zero = refl
length-blanks (suc n) = ap suc (length-blanks n)

length-truncate : (s : Bytes) (n : ℕ) → length (truncate s n) ≡ min (length s) n
unfolding truncate
length-truncate s n =
    if_cases (λ (t : Bytes). length t ≡ min (length s) n) (leb (length s) n) _ _ (λ e. ground arith)
      (λ e.
        if_cases (λ (t : Bytes). length t ≡ min (length s) n) (leb n (length marker)) _ _
          (λ _. length-take n s (ground arith) ∙ ground arith)
          (λ f.
            length-append (take (n - 15) s) marker
            ∙ (ap (λ k. k + 15) (length-take (n - 15) s (ground arith)) ∙ ground arith)))

length-pad_right : (s : Bytes) (n : ℕ) → length (pad_right s n) ≡ max (length s) n
unfolding pad_right
length-pad_right s n =
    if_cases (λ (t : Bytes). length t ≡ max (length s) n) (ltb (length s) n) _ _
      (λ _.
        length-append s (blanks (n - length s))
        ∙ (ap (λ k. length s + k) (length-blanks (n - length s)) ∙ ground arith))
      (λ e. ground arith)

length-pad_left : (s : Bytes) (n : ℕ) → length (pad_left s n) ≡ max (length s) n
unfolding pad_left
length-pad_left s n =
    if_cases (λ (t : Bytes). length t ≡ max (length s) n) (ltb (length s) n) _ _
      (λ _.
        length-append (blanks (n - length s)) s
        ∙ (ap (λ k. k + length s) (length-blanks (n - length s)) ∙ ground arith))
      (λ e. ground arith)

-- A truncated text has the length of the text or the limit, whichever is less, and a padded one,
-- on either side, whichever is more.
pub lengths_bounded :
    (s : Bytes) (n : ℕ)
    → (length (truncate s n) ≡ min (length s) n)
      × (length (pad_right s n) ≡ max (length s) n)
      × (length (pad_left s n) ≡ max (length s) n)
lengths_bounded s n = (length-truncate s n, length-pad_right s n, length-pad_left s n)

-- The byte that two hexadecimal digits spell.
abbrev digit_value : ℕ → ℕ
digit_value c = if ltb c b'a' then c - b'0' else c - b'a' + 10

from_hex : Bytes → Bytes
from_hex [] = []
from_hex (a ∷ []) = []
from_hex (a ∷ b ∷ s) = (16 * digit_value a + digit_value b) ∷ from_hex s

digit_value-hex_of : (d : ℕ) → d < 16 → digit_value (hex_of d) ≡ d
unfolding hex_of
digit_value-hex_of d h = ground arith

abbrev IsByte : ℕ → Type 0
IsByte c = c < 256

from_hex-to_hex : (s : Bytes) → All IsByte s → from_hex (to_hex s) ≡ s
unfolding from_hex to_hex
from_hex-to_hex [] h = refl
from_hex-to_hex (c ∷ s) (h, hs) =
    rw
      (
        from_hex-to_hex s hs,
        digit_value-hex_of (c / 16) (omega arith),
        digit_value-hex_of (c % 16) (omega arith),
      )
      (ap (λ d. d ∷ s) (omega arith))

-- Two texts of bytes with one hexadecimal form are one text.
pub to_hex-injective : (s t : Bytes) → All IsByte s → All IsByte t → to_hex s ≡ to_hex t → s ≡ t
to_hex-injective s t hs ht e = cc (from_hex-to_hex s hs, from_hex-to_hex t ht, ap from_hex e)
