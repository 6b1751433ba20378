-- ===== src/Ids.antt =====
-- Stable test identifiers (src/core/Ids.cpp). `generateHexId` draws random digits and is not modelled.
use testforge.Base.{
  leb, get_elem?, codes, bit_xor, suc, zero, some, none, [], ◌++◌, ◌∷◌, ◌<◌, ◌^◌, ◌%◌, ◌/◌, ◌*◌,
  ◌-◌, ◌+◌, if◌then◌else◌, Bytes, ℕ, arith,
}

abbrev pub offset_basis : ℕ
offset_basis = 1469598103934665603

abbrev pub prime : ℕ
prime = 1099511628211

-- The loop of `fnv1a64`, in `std::uint64_t`.
unfoldable pub fnv1a_from : ℕ → Bytes → ℕ
fnv1a_from hash [] = hash
fnv1a_from hash (c ∷ s) = fnv1a_from (bit_xor hash c * prime % 2 ^ 64) s

unfoldable pub fnv1a64 : Bytes → ℕ
unfolding fnv1a_from
fnv1a64 text = fnv1a_from offset_basis text

abbrev pub hex_digits : Bytes
hex_digits = codes "0123456789abcdef"

unfoldable pub hex_digit : ℕ → ℕ
hex_digit n = elim (get_elem? hex_digits n) [ none ↦ 0 | some c ↦ c ]

-- The loop of `testId`, from the last digit to the first: `left` digits are still to be written in
-- front of `buffer`.
unfoldable pub fill_hex : ℕ → ℕ → Bytes → Bytes
unfolding hex_digit
fill_hex zero hash buffer = buffer
fill_hex (suc left) hash buffer = fill_hex left (hash / 16) (hex_digit (hash % 16) ∷ buffer)

unfoldable pub test_id : Bytes → Bytes → Bytes
unfolding fnv1a64 fill_hex
test_id suite name = fill_hex 16 (fnv1a64 (suite ++ b'.' ∷ name)) []

-- Reading hexadecimal digits, as an independent account of what the text says.
unfoldable pub hex_value : ℕ → ℕ
hex_value c = if leb b'a' c then c - b'a' + 10 else c - b'0'

unfoldable pub read_hex : ℕ → Bytes → ℕ
unfolding hex_value
read_hex n [] = n
read_hex n (c ∷ s) = read_hex (n * 16 + hex_value c) s

fnv1a_from-lt : (s : Bytes) (hash : ℕ) → hash < 2 ^ 64 → fnv1a_from hash s < 2 ^ 64
unfolding fnv1a_from
fnv1a_from-lt [] hash h = h
fnv1a_from-lt (c ∷ s) hash h = fnv1a_from-lt s (bit_xor hash c * prime % 2 ^ 64) (omega arith)

pub fnv1a64-lt : (s : Bytes) → fnv1a64 s < 2 ^ 64
unfolding fnv1a64
fnv1a64-lt s = fnv1a_from-lt s offset_basis (omega arith)
