-- ===== src/Base/Texts.antt =====
-- Texts as the bytes that `std::string` holds, with its equality and its order.
use Prim.Native.Char.{code}
use Prim.Native.String.{String}
use Prim.Native.Nat.{ℕ}
use mathlib.Core.Path.{◌≡◌, refl}
use mathlib.Core.Logic.{◌↔◌}
use mathlib.Core.Bool.{Bool, true, false, ◌&&◌}
use mathlib.Core.List.{List, [], ◌∷◌}
use native.Mathlib.Omega.{arith}
use mathlib.Core.Logic.{inl, inr}
use testforge.Base.Tests.{Bool-cases, ltb, ◌==◌, if◌then◌else◌}

abbrev pub Bytes : Type 0
Bytes = List ℕ

-- The bytes of a literal that is ASCII.
abbrev pub codes : String → Bytes
codes String.[] = []
codes (String.◌∷◌ c s) = code c ∷ codes s

-- `operator==` on strings.
unfoldable pub eq_bytes : Bytes → Bytes → Bool
eq_bytes [] [] = true
eq_bytes [] (y ∷ ys) = false
eq_bytes (x ∷ xs) [] = false
eq_bytes (x ∷ xs) (y ∷ ys) = x == y && eq_bytes xs ys

-- `operator<` on strings: lexicographic, by unsigned bytes.
unfoldable pub lt_bytes : Bytes → Bytes → Bool
lt_bytes [] [] = false
lt_bytes [] (y ∷ ys) = true
lt_bytes (x ∷ xs) [] = false
lt_bytes (x ∷ xs) (y ∷ ys) = if x == y then lt_bytes xs ys else ltb x y

pub eq_bytes_self : (s : Bytes) → eq_bytes s s ≡ true
unfolding eq_bytes
eq_bytes_self [] = refl
eq_bytes_self (x ∷ xs) = ground (arith, eq_bytes_self xs)

pub eq_bytes→eq : (s t : Bytes) → eq_bytes s t ≡ true → s ≡ t
unfolding eq_bytes
eq_bytes→eq [] [] h = refl
eq_bytes→eq [] (y ∷ ys) h = cc
eq_bytes→eq (x ∷ xs) [] h = cc
eq_bytes→eq (x ∷ xs) (y ∷ ys) h = ground (arith, eq_bytes→eq xs ys)

pub eq_bytes_iff : (s t : Bytes) → (eq_bytes s t ≡ true) ↔ (s ≡ t)
eq_bytes_iff s t = (eq_bytes→eq s t, λ e. rw e (eq_bytes_self t))

pub lt_bytes_irrefl : (s : Bytes) → lt_bytes s s ≡ false
unfolding lt_bytes
lt_bytes_irrefl [] = refl
lt_bytes_irrefl (x ∷ xs) = ground (arith, lt_bytes_irrefl xs)

pub lt_bytes_trans :
    (r s t : Bytes) → lt_bytes r s ≡ true → lt_bytes s t ≡ true → lt_bytes r t ≡ true
unfolding lt_bytes
lt_bytes_trans [] [] t p q = cc
lt_bytes_trans [] (y ∷ ys) [] p q = cc
lt_bytes_trans [] (y ∷ ys) (z ∷ zs) p q = refl
lt_bytes_trans (x ∷ xs) [] t p q = cc
lt_bytes_trans (x ∷ xs) (y ∷ ys) [] p q = cc
lt_bytes_trans (x ∷ xs) (y ∷ ys) (z ∷ zs) p q = ground (arith, lt_bytes_trans xs ys zs)

-- The order is total: of two texts that are not less either way, both are the same.
pub lt_bytes_tri : (s t : Bytes) → lt_bytes s t ≡ false → lt_bytes t s ≡ false → s ≡ t
unfolding lt_bytes
lt_bytes_tri [] [] p q = refl
lt_bytes_tri [] (y ∷ ys) p q = cc
lt_bytes_tri (x ∷ xs) [] p q = cc
lt_bytes_tri (x ∷ xs) (y ∷ ys) p q = ground (arith, lt_bytes_tri xs ys)

-- Of two different texts, one comes first.
pub lt_bytes_flip :
    (s t : Bytes) → eq_bytes s t ≡ false → lt_bytes t s ≡ false → lt_bytes s t ≡ true
lt_bytes_flip s t ne h = elim (Bool-cases (lt_bytes s t)) [
  | inl lt ↦ lt
  | inr ge ↦ cc (lt_bytes_tri s t ge h, eq_bytes_self s)
]

-- "Not after" is transitive.
pub ge_bytes_trans :
    (r s t : Bytes) → lt_bytes s r ≡ false → lt_bytes t s ≡ false → lt_bytes t r ≡ false
unfolding lt_bytes
ge_bytes_trans [] s [] p q = refl
ge_bytes_trans [] s (z ∷ t) p q = refl
ge_bytes_trans (x ∷ r) [] t p q = cc
ge_bytes_trans (x ∷ r) (y ∷ s) [] p q = cc
ge_bytes_trans (x ∷ r) (y ∷ s) (z ∷ t) p q = ground (arith, ge_bytes_trans r s t)

pub lt_bytes_asymm : (s t : Bytes) → lt_bytes s t ≡ true → lt_bytes t s ≡ false
lt_bytes_asymm s t h = elim (Bool-cases (lt_bytes t s)) [
  | inl k ↦ cc (lt_bytes_trans s t s h k, lt_bytes_irrefl s)
  | inr k ↦ k
]

pub le_lt_bytes_trans :
    (r s t : Bytes) → lt_bytes s r ≡ false → lt_bytes s t ≡ true → lt_bytes r t ≡ true
le_lt_bytes_trans r s t p q = elim (Bool-cases (lt_bytes r t)) [
  | inl lt ↦ lt
  | inr ge ↦ cc (ge_bytes_trans t r s ge p)
]
