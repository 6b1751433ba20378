-- ===== src/Url/Percent.antt =====
-- Percent coding (src/net/Url.cpp: urlEncode, urlDecode, parseQuery).
use testforge.Base.{
  leb, map, Option, Bool, ap, ltb, All, List, if_cases, refl, some, none, [], false, true, ◌++◌,
  ◌∷◌, ◌||◌, ◌&&◌, ◌∙◌, ◌≡◌, ◌<◌, ◌%◌, ◌/◌, ◌*◌, ◌-◌, ◌+◌, if◌then◌else◌, ◌==◌, Bytes, ℕ, arith,
}
use testforge.Url.{is_alnum}
use testforge.Strings.Pieces.{split, cut}

unfoldable pub is_unreserved : ℕ → Bool
unfolding is_alnum
is_unreserved c = is_alnum c || c == b'-' || c == b'_' || c == b'.' || c == b'~'

unfoldable pub upper_hex : ℕ → ℕ
upper_hex d = if ltb d 10 then b'0' + d else b'A' + (d - 10)

unfoldable pub encode_byte : ℕ → Bytes
unfolding is_unreserved upper_hex
encode_byte c =
    if is_unreserved c then c ∷ [] else b'%' ∷ upper_hex (c / 16) ∷ upper_hex (c % 16) ∷ []

unfoldable pub url_encode : Bytes → Bytes
unfolding encode_byte
url_encode [] = []
url_encode (c ∷ s) = encode_byte c ++ url_encode s

unfoldable pub hex_value : ℕ → Option ℕ
hex_value c =
    if leb b'0' c && leb c b'9'
    then some (c - b'0')
    else if leb b'a' c && leb c b'f'
    then some (c - b'a' + 10)
    else if leb b'A' c && leb c b'F'
    then some (c - b'A' + 10)
    else none

-- The byte that two digits behind a percent sign spell.
unfoldable pub hex_pair : ℕ → ℕ → Option ℕ
unfolding hex_value
hex_pair a b = elim (hex_value a) [
  | none ↦ none
  | some high ↦ elim (hex_value b) [ none ↦ none | some low ↦ some (high * 16 + low) ]
]

unfoldable pub decode_one : ℕ → ℕ
decode_one c = if c == b'+' then b' ' else c

-- A percent sign that two digits do not follow stands for itself.
unfoldable pub url_decode : Bytes → Bytes
unfolding hex_pair decode_one
url_decode [] = []
url_decode (c ∷ []) = decode_one c ∷ []
url_decode (c ∷ a ∷ []) = decode_one c ∷ decode_one a ∷ []
url_decode (c ∷ a ∷ b ∷ s) =
    let plain = decode_one c ∷ url_decode (a ∷ b ∷ s) in
    let behind = url_decode s in
    if c == b'%' then elim (hex_pair a b) [ none ↦ plain | some d ↦ d ∷ behind ] else plain

unfoldable query_pair : Bytes → Bytes × Bytes
unfolding cut url_decode
query_pair part =
    let value = elim (cut b'=' part).1 as (λ _. Bytes) [ none ↦ [] | some v ↦ url_decode v ] in
    (url_decode (cut b'=' part).0, value)

unfoldable pub parse_query : Bytes → List (Bytes × Bytes)
unfolding split query_pair
parse_query query = map query_pair (split query b'&' true)

hex_value-upper_hex : (d : ℕ) → d < 16 → hex_value (upper_hex d) ≡ some d
unfolding hex_value upper_hex
hex_value-upper_hex d h = ground arith

hex_pair-upper_hex : (c : ℕ) → c < 256 → hex_pair (upper_hex (c / 16)) (upper_hex (c % 16)) ≡ some c
unfolding hex_pair
hex_pair-upper_hex c h =
    rw
      (
        hex_value-upper_hex (c / 16) (omega arith),
        hex_pair,
        hex_value-upper_hex (c % 16) (omega arith),
      )
      (ap some (omega arith))

-- A byte that is neither a percent sign nor a plus is decoded as itself, whatever follows.
url_decode-plain :
    (c : ℕ) (s : Bytes)
    → (c == b'%') ≡ false
    → (c == b'+') ≡ false
    → url_decode (c ∷ s) ≡ c ∷ url_decode s
unfolding url_decode decode_one
url_decode-plain c [] p q = rw q refl
url_decode-plain c (a ∷ []) p q = rw q refl
url_decode-plain c (a ∷ b ∷ s) p q = rw (p, q) refl

url_decode-encode_byte :
    (c : ℕ) (s : Bytes) → c < 256 → url_decode (encode_byte c ++ s) ≡ c ∷ url_decode s
unfolding encode_byte
url_decode-encode_byte c s h =
    if_cases (λ (t : Bytes). url_decode (t ++ s) ≡ c ∷ url_decode s) (is_unreserved c) _ _
      (λ u.
        url_decode-plain c s (unfold is_unreserved is_alnum in ground arith)
          (unfold is_unreserved is_alnum in ground arith))
      (λ _. unfold url_decode in rw (hex_pair-upper_hex c h) refl)

-- Decoding what was encoded gives the text back.
pub url_decode-url_encode : (s : Bytes) → All (λ c. c < 256) s → url_decode (url_encode s) ≡ s
unfolding url_encode
url_decode-url_encode [] h = unfold url_decode in refl
url_decode-url_encode (c ∷ s) h =
    url_decode-encode_byte c (url_encode s) h.0 ∙ ap (λ t. c ∷ t) (url_decode-url_encode s h.1)
