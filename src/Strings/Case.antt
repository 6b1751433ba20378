-- ===== src/Strings/Case.antt =====
-- ASCII case, white space and comparisons that ignore case (src/core/StringUtils.cpp).
use testforge.Base.{
  leb, ◌==◌, if◌then◌else◌, ==_iff, Bool-cases, length, is_empty, All, eq_bytes, Bytes, eq_bytes→eq,
  ℕ, suc, ◌+◌, ◌-◌, ◌≡◌, refl, ap, inl, inr, Bool, true, false, ◌&&◌, ◌||◌, List, [], ◌∷◌, ◌++◌,
  map, arith, ℕ_discrete,
}

-- `std::tolower` in the C locale.
unfoldable pub lower_ascii : ℕ → ℕ
lower_ascii c = if leb b'A' c && leb c b'Z' then c + 32 else c

-- `std::toupper` in the C locale.
unfoldable pub upper_ascii : ℕ → ℕ
upper_ascii c = if leb b'a' c && leb c b'z' then c - 32 else c

-- `std::isspace` in the C locale: tab to carriage return, and the blank.
unfoldable pub is_space : ℕ → Bool
is_space c = (leb 9 c && leb c 13) || c == 32

unfoldable pub to_lower : Bytes → Bytes
unfolding lower_ascii
to_lower s = map lower_ascii s

unfoldable pub to_upper : Bytes → Bytes
unfolding upper_ascii
to_upper s = map upper_ascii s

-- The loop `while (begin < end && isSpace(text[begin]))`.
unfoldable pub trim_left : Bytes → Bytes
unfolding is_space
trim_left [] = []
trim_left (c ∷ s) = let rest = trim_left s in if is_space c then rest else c ∷ s

-- The loop `while (end > begin && isSpace(text[end - 1]))`.
unfoldable pub trim_right : Bytes → Bytes
unfolding is_space
trim_right [] = []
trim_right (c ∷ s) = let rest = trim_right s in if is_empty rest && is_space c then [] else c ∷ rest

unfoldable pub trim : Bytes → Bytes
unfolding trim_left trim_right
trim s = trim_right (trim_left s)

-- The loop over `i` of `equalsIgnoreCase`, at texts of one length.
unfoldable pub equals_from : Bytes → Bytes → Bool
unfolding lower_ascii
equals_from [] b = true
equals_from (x ∷ a) [] = true
equals_from (x ∷ a) (y ∷ b) =
    let rest = equals_from a b in if lower_ascii x == lower_ascii y then rest else false

unfoldable pub equals_ignore_case : Bytes → Bytes → Bool
unfolding equals_from
equals_ignore_case a b = if length a == length b then equals_from a b else false

equals_from-eq :
    (a b : Bytes)
    → length a ≡ length b
    → equals_from a b ≡ eq_bytes (map lower_ascii a) (map lower_ascii b)
unfolding equals_from eq_bytes
equals_from-eq [] [] h = refl
equals_from-eq [] (y ∷ b) h = absurd (omega arith)
equals_from-eq (x ∷ a) [] h = absurd (omega arith)
equals_from-eq (x ∷ a) (y ∷ b) h = ground (arith, equals_from-eq a b)

pub length-map {ℓ κ} :
    {A : Type ℓ} {B : Type κ} (f : A → B) (xs : List A) → length (map f xs) ≡ length xs
length-map f [] = refl
length-map f (x ∷ xs) = ap suc (length-map f xs)

eq_bytes-length : (a b : Bytes) → (length a ≡ length b → ⊥) → eq_bytes a b ≡ false
eq_bytes-length a b h = elim (Bool-cases (eq_bytes a b)) [
  | inl e ↦ absurd (h (ap length (eq_bytes→eq a b e)))
  | inr e ↦ e
]

-- Ignoring case is comparing the lower-case forms.
pub equals_ignore_case-to_lower :
    (a b : Bytes) → equals_ignore_case a b ≡ eq_bytes (to_lower a) (to_lower b)
unfolding equals_ignore_case to_lower
equals_ignore_case-to_lower a b = elim (ℕ_discrete (length a) (length b)) [
  | yes e ↦ rw ((==_iff (length a) (length b)).1 e) (equals_from-eq a b e)
  | no ne ↦ ground (
    arith,
    eq_bytes-length (map lower_ascii a) (map lower_ascii b),
    length-map lower_ascii a,
    length-map lower_ascii b,
  )
]

lower_ascii_idem : (c : ℕ) → lower_ascii (lower_ascii c) ≡ lower_ascii c
unfolding lower_ascii
lower_ascii_idem c = ground arith

pub to_lower_idem : (s : Bytes) → to_lower (to_lower s) ≡ to_lower s
unfolding to_lower
to_lower_idem [] = refl
to_lower_idem (c ∷ s) = cc (lower_ascii_idem c, to_lower_idem s)

-- What `trim` cuts off in front and behind is white space, and what it leaves has none at its ends.
trim_left-split :
    (s : Bytes) → (p : Bytes) × (s ≡ p ++ trim_left s) × All (λ c. is_space c ≡ true) p
unfolding trim_left
trim_left-split [] = ([], refl, tt)
trim_left-split (c ∷ s) = elim (Bool-cases (is_space c)) [
  | inl e ↦ let (p, q, a) = trim_left-split s in (c ∷ p, rw (e, is_space) (ap (◌∷◌ c) q), (e, a))
  | inr e ↦ ([], rw (e, is_space), tt)
]
