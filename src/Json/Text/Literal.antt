-- ===== src/Json/Text/Literal.antt =====
-- Reading a JSON string (src/core/Json.cpp: Parser::parseHex4, Parser::parseString). A text that is
-- at its end has no byte at `pos_`.
use testforge.Base.{
  ◌||◌, length, codes, leb, Bytes, ltb, Option, suc, zero, some, none, [], ◌++◌, ◌∷◌, ◌&&◌, ◌^◌,
  ◌*◌, ◌-◌, ◌+◌, if◌then◌else◌, ◌==◌, ℕ,
}
use testforge.Json.Text.Outcome.{◌>>=◌, ◌>>◌, pure, starved, failed, done, and_then, Parser}
use testforge.Json.Text.Escape.{append_utf8}

unfoldable pub unhex : ℕ → Option ℕ
unhex c =
    if leb b'0' c && leb c b'9'
    then some (c - b'0')
    else if leb b'a' c && leb c b'f'
    then some (c - b'a' + 10)
    else if leb b'A' c && leb c b'F'
    then some (c - b'A' + 10)
    else none

-- The loop over the four digits. `pos_` stands behind a digit that is refused.
unfoldable pub scan_hex : ℕ → ℕ → Parser ℕ
unfolding unhex
scan_hex zero value s = done value s
scan_hex (suc k) value [] = failed (codes "truncated \\u escape") []
scan_hex (suc k) value (c ∷ s) = elim (unhex c) [
  | none ↦ failed (codes "invalid hex digit in \\u escape") s
  | some d ↦ scan_hex k (value * 16 + d) s
]

unfoldable pub parse_hex4 : Parser ℕ
unfolding scan_hex
parse_hex4 s = if ltb (length s) 4 then failed (codes "truncated \\u escape") s else scan_hex 4 0 s

-- A high surrogate in front of an escape that is a low surrogate; the escape is left in the text
-- when it is none.
unfoldable pub second_unit : ℕ → Parser Bytes
unfolding parse_hex4 append_utf8 and_then
second_unit cp (a ∷ b ∷ s) =
    let pair = and_then (parse_hex4 s) λ low rest.
      if leb 0xDC00 low && leb low 0xDFFF
      then done (append_utf8 (0x10000 + (cp - 0xD800) * 2 ^ 10 + (low - 0xDC00))) rest
      else done (append_utf8 cp) (a ∷ b ∷ s) in
    if leb 0xD800 cp && leb cp 0xDBFF && a == b'\\' && b == b'u'
    then pair
    else done (append_utf8 cp) (a ∷ b ∷ s)
second_unit cp s = done (append_utf8 cp) s

unfoldable pub parse_unicode : Parser Bytes
unfolding second_unit parse_hex4 and_then
parse_unicode = parse_hex4 >>= second_unit

-- What stands behind a backslash.
unfoldable pub parse_escape : Parser Bytes
unfolding parse_unicode
parse_escape [] = failed (codes "unterminated escape sequence") []
parse_escape (c ∷ s) =
    let unicode = parse_unicode s in
    if c == b'"' || c == b'\\' || c == b'/'
    then done (c ∷ []) s
    else if c == b'b'
    then done (8 ∷ []) s
    else if c == b'f'
    then done (12 ∷ []) s
    else if c == b'n'
    then done (10 ∷ []) s
    else if c == b'r'
    then done (13 ∷ []) s
    else if c == b't'
    then done (9 ∷ []) s
    else if c == b'u'
    then unicode
    else failed (codes "invalid escape sequence") s

-- The loop of `parseString`, behind the opening quote. Each round uses a byte and a unit of fuel.
unfoldable pub parse_chars : ℕ → Parser Bytes
unfolding parse_escape and_then
parse_chars zero s = starved
parse_chars (suc fuel) [] = failed (codes "unterminated string") []
parse_chars (suc fuel) (c ∷ s) =
    let escaped =
      and_then (parse_escape s)
        λ bytes rest. and_then (parse_chars fuel rest) λ out. pure (bytes ++ out) in
    let plain = and_then (parse_chars fuel s) λ out. pure (c ∷ out) in
    if c == b'"'
    then done [] s
    else if c == b'\\'
    then escaped
    else if ltb c 0x20
    then failed (codes "unescaped control character in string") (c ∷ s)
    else plain

-- `expect`.
unfoldable pub expect : ℕ → Parser (Unit {0})
expect c [] = failed (codes "expected '" ++ c ∷ codes "'") []
expect c (d ∷ s) =
    if d == c then done tt s else failed (codes "expected '" ++ c ∷ codes "'") (d ∷ s)

unfoldable pub parse_string : Parser Bytes
unfolding expect parse_chars and_then
parse_string = expect b'"' >> λ s. parse_chars (suc (length s)) s
