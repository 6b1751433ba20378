-- ===== src/Json/Text/Escape.antt =====
-- The text of a JSON string (src/core/Json.cpp: appendUtf8, escapeInto, quote).
use testforge.Base.{
  ltb, leb, Bytes, ℕ, [], ◌++◌, ◌∷◌, ◌&&◌, ◌^◌, ◌%◌, ◌/◌, ◌-◌, ◌+◌, if◌then◌else◌, ◌==◌,
}

-- `appendUtf8`: the bytes of a code point. A surrogate becomes U+FFFD first.
unfoldable pub encode_utf8 : ℕ → Bytes
encode_utf8 cp =
    if leb cp 0x7F
    then cp ∷ []
    else if leb cp 0x7FF
    then (0xC0 + cp / 2 ^ 6) ∷ (0x80 + cp % 2 ^ 6) ∷ []
    else if leb cp 0xFFFF
    then (0xE0 + cp / 2 ^ 12) ∷ (0x80 + cp / 2 ^ 6 % 2 ^ 6) ∷ (0x80 + cp % 2 ^ 6) ∷ []
    else (0xF0 + cp / 2 ^ 18)
      ∷ (0x80 + cp / 2 ^ 12 % 2 ^ 6)
      ∷ (0x80 + cp / 2 ^ 6 % 2 ^ 6)
      ∷ (0x80 + cp % 2 ^ 6)
      ∷ []

unfoldable pub append_utf8 : ℕ → Bytes
unfolding encode_utf8
append_utf8 cp = encode_utf8 (if leb 0xD800 cp && leb cp 0xDFFF then 0xFFFD else cp)

-- `kHex`.
unfoldable pub hex_char : ℕ → ℕ
hex_char d = if ltb d 10 then b'0' + d else b'a' + (d - 10)

unfoldable pub escape_byte : ℕ → Bytes
unfolding hex_char
escape_byte c =
    if c == b'"'
    then b'\\' ∷ b'"' ∷ []
    else if c == b'\\'
    then b'\\' ∷ b'\\' ∷ []
    else if c == 8
    then b'\\' ∷ b'b' ∷ []
    else if c == 12
    then b'\\' ∷ b'f' ∷ []
    else if c == 10
    then b'\\' ∷ b'n' ∷ []
    else if c == 13
    then b'\\' ∷ b'r' ∷ []
    else if c == 9
    then b'\\' ∷ b't' ∷ []
    else if ltb c 0x20
    then b'\\' ∷ b'u' ∷ b'0' ∷ b'0' ∷ hex_char (c / 16) ∷ hex_char (c % 16) ∷ []
    else c ∷ []

unfoldable pub escape_bytes : Bytes → Bytes
unfolding escape_byte
escape_bytes [] = []
escape_bytes (c ∷ s) = escape_byte c ++ escape_bytes s

-- `escapeInto` behind what is written already, and `quote`.
unfoldable pub quote : Bytes → Bytes
unfolding escape_bytes
quote s = b'"' ∷ escape_bytes s ++ b'"' ∷ []
