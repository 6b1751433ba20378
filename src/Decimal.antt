-- ===== src/Decimal.antt =====
-- Numbers in decimal digits, as `std::to_string` writes them.
use testforge.Base.{
  Bytes, negsuc, pos, suc, zero, refl, [], ◌++◌, ◌∷◌, ◌≡◌, ◌<◌, ◌%◌, ◌/◌, ◌*◌, ◌-◌, ◌+◌,
  if◌then◌else◌, ◌==◌, ℤ, ℕ, arith,
}

unfoldable pub digits : ℕ → ℕ → Bytes
digits zero n = []
digits (suc fuel) n =
    let front = digits fuel (n / 10) in
    let last = b'0' + n % 10 in if n / 10 == 0 then last ∷ [] else front ++ last ∷ []

-- A number has fewer digits than its successor counts.
unfoldable pub decimal : ℤ → Bytes
unfolding digits
decimal (pos n) = digits (suc n) n
decimal (negsuc n) = b'-' ∷ digits (suc (suc n)) (suc n)

unfoldable pub read_digits : ℕ → Bytes → ℕ
read_digits acc [] = acc
read_digits acc (c ∷ s) = read_digits (acc * 10 + (c - b'0')) s

read_digits-append :
    (acc c : ℕ) (s : Bytes) → read_digits acc (s ++ c ∷ []) ≡ read_digits acc s * 10 + (c - b'0')
unfolding read_digits
read_digits-append acc c [] = refl
read_digits-append acc c (d ∷ s) = read_digits-append (acc * 10 + (d - b'0')) c s

-- The fuel is enough: the digits read back as the number.
pub read_digits-digits : (fuel n : ℕ) → n < fuel → read_digits 0 (digits fuel n) ≡ n
unfolding digits read_digits
read_digits-digits zero n h = absurd (omega arith)
read_digits-digits (suc fuel) n h = ground (
  arith,
  read_digits-digits fuel (n / 10),
  read_digits-append 0 (b'0' + n % 10) (digits fuel (n / 10)),
)
