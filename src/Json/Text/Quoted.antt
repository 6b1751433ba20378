-- ===== src/Json/Text/Quoted.antt =====
-- A quoted text is read back as it was: `escapeInto` against `parseString` (src/core/Json.cpp).
use testforge.Json.Text.Literal.{expect, parse_string, parse_chars, parse_unicode, unhex, scan_hex}
use testforge.Base.{
  length-append, ◌≤◌, if_cases, append_assoc, ==_iff, zero, true, ap, length, refl, ◌∙◌, ◌*◌, ◌+◌,
  suc, if_false, some, ltb, Bytes, some, [], false, ◌++◌, ◌∷◌, ◌≡◌, ◌<◌, ◌%◌, ◌/◌, ◌==◌, ℕ, arith,
}
use testforge.Json.Text.Literal.{parse_escape, parse_hex4, second_unit}
use testforge.Json.Text.Escape.{
  quote, escape_bytes, escape_byte, hex_char, encode_utf8, append_utf8,
}
use testforge.Json.Text.Outcome.{pure, and_then, done}

unhex-hex_char : (d : ℕ) → d < 16 → unhex (hex_char d) ≡ some d
unfolding unhex hex_char
unhex-hex_char d h = ground arith

second_unit-ascii : (c : ℕ) (s : Bytes) → c < 0x80 → second_unit c s ≡ done (c ∷ []) s
unfolding second_unit append_utf8 encode_utf8
second_unit-ascii c [] h = ground arith
second_unit-ascii c (a ∷ []) h = ground arith
second_unit-ascii c (a ∷ b ∷ s) h = ground arith

scan_hex-hex_char :
    (k value d : ℕ) (s : Bytes)
    → d < 16
    → scan_hex (suc k) value (hex_char d ∷ s) ≡ scan_hex k (value * 16 + d) s
unfolding scan_hex
scan_hex-hex_char k value d s h = rw (unhex-hex_char d h, scan_hex) refl

parse_hex4-hex_char :
    (c : ℕ) (s : Bytes)
    → c < 256
    → parse_hex4 (b'0' ∷ b'0' ∷ hex_char (c / 16) ∷ hex_char (c % 16) ∷ s) ≡ done c s
unfolding parse_hex4 scan_hex unhex
parse_hex4-hex_char c s h =
    if_false (ltb (suc (suc (suc (suc (length s))))) 4) _ _ (ground arith)
    ∙ (scan_hex-hex_char 1 0 (c / 16) (hex_char (c % 16) ∷ s) (omega arith)
        ∙ (scan_hex-hex_char 0 (0 * 16 + c / 16) (c % 16) s (omega arith)
            ∙ ap (λ n. done n s) (omega arith)))

-- The text of one byte: itself, or a backslash with what is read back as the byte.
data Escaped (c : ℕ) : Bytes → Type 0 where
  plain : (c == b'"') ≡ false → (c == b'\\') ≡ false → ltb c 0x20 ≡ false → Escaped c (c ∷ [])
  slash :
      {e : Bytes}
      → ((rest : Bytes) → parse_escape (e ++ rest) ≡ done (c ∷ []) rest)
      → Escaped c (b'\\' ∷ e)

Escaped-letter :
    (c v e : ℕ)
    → (c == v) ≡ true
    → ((rest : Bytes) → parse_escape (e ∷ rest) ≡ done (v ∷ []) rest)
    → Escaped c (b'\\' ∷ e ∷ [])
Escaped-letter c v e h p = slash (λ rest. rw ((==_iff c v).0 h) (p rest))

parse_escape-unicode :
    (c : ℕ)
    → c < 0x20
    → (rest : Bytes)
    → parse_escape (b'u' ∷ b'0' ∷ b'0' ∷ hex_char (c / 16) ∷ hex_char (c % 16) ∷ rest)
      ≡ done (c ∷ []) rest
unfolding parse_escape parse_unicode and_then
parse_escape-unicode c h rest =
    rw (parse_hex4-hex_char c rest (omega arith)) (second_unit-ascii c rest (omega arith))

escape_byte-Escaped : (c : ℕ) → Escaped c (escape_byte c)
unfolding escape_byte parse_escape
escape_byte-Escaped c =
    if_cases (Escaped c) (c == b'"') _ _ (λ e. Escaped-letter c b'"' b'"' e λ rest. refl)
      λ n0.
        if_cases (Escaped c) (c == b'\\') _ _ (λ e. Escaped-letter c b'\\' b'\\' e λ rest. refl)
          λ n1.
            if_cases (Escaped c) (c == 8) _ _ (λ e. Escaped-letter c 8 b'b' e λ rest. refl)
              λ n2.
                if_cases (Escaped c) (c == 12) _ _ (λ e. Escaped-letter c 12 b'f' e λ rest. refl)
                  λ n3.
                    if_cases (Escaped c) (c == 10) _ _
                      (λ e. Escaped-letter c 10 b'n' e λ rest. refl)
                      λ n4.
                        if_cases (Escaped c) (c == 13) _ _
                          (λ e. Escaped-letter c 13 b'r' e λ rest. refl)
                          λ n5.
                            if_cases (Escaped c) (c == 9) _ _
                              (λ e. Escaped-letter c 9 b't' e λ rest. refl)
                              λ n6.
                                if_cases (Escaped c) (ltb c 0x20) _ _
                                  (λ lt. slash (parse_escape-unicode c (ground arith)))
                                  λ ge. plain n0 n1 ge

parse_chars-Escaped :
    (c fuel : ℕ) {e : Bytes} (rest : Bytes)
    → Escaped c e
    → parse_chars (suc fuel) (e ++ rest) ≡ and_then (parse_chars fuel rest) λ out. pure (c ∷ out)
unfolding parse_chars and_then
parse_chars-Escaped c fuel rest (plain p q r) = rw (p, q, r) refl
parse_chars-Escaped c fuel rest (slash p) = rw (p rest) refl

pub parse_chars-escape_bytes :
    (s rest : Bytes) (fuel : ℕ)
    → length s < fuel
    → parse_chars fuel (escape_bytes s ++ b'"' ∷ rest) ≡ done s rest
unfolding parse_chars escape_bytes and_then
parse_chars-escape_bytes s rest zero h = absurd (omega arith)
parse_chars-escape_bytes [] rest (suc fuel) h = refl
parse_chars-escape_bytes (c ∷ s) rest (suc fuel) h =
    rw (append_assoc (escape_byte c) (escape_bytes s) (b'"' ∷ rest)) rw
      (parse_chars-Escaped c fuel (escape_bytes s ++ b'"' ∷ rest) (escape_byte-Escaped c)) rw
      (parse_chars-escape_bytes s rest fuel (omega arith)) refl

length-escape_byte : (c : ℕ) → 0 < length (escape_byte c)
unfolding escape_byte
length-escape_byte c = ground arith

length-escape_bytes : (s : Bytes) → length s ≤ length (escape_bytes s)
unfolding escape_bytes
length-escape_bytes [] = omega arith
length-escape_bytes (c ∷ s) =
    rw (length-append (escape_byte c) (escape_bytes s))
      (omega (arith, length-escape_byte c, length-escape_bytes s))

-- Every text comes back, whatever its bytes are, and what follows the quotes is left.
pub parse_string-quote : (s rest : Bytes) → parse_string (quote s ++ rest) ≡ done s rest
unfolding parse_string quote expect and_then
parse_string-quote s rest =
    let enough : length s < suc (length (escape_bytes s ++ b'"' ∷ rest)) =
      rw (length-append (escape_bytes s) (b'"' ∷ rest)) (omega (arith, length-escape_bytes s)) in
    rw (append_assoc (escape_bytes s) (b'"' ∷ []) rest) (parse_chars-escape_bytes s rest _ enough)
