-- ===== src/Json/Text/Numeral.antt =====
-- Numbers inside a text, and an integer that is read back as it was: `parseNumber` against
-- `std::to_string` (src/core/Json.cpp).
use testforge.Base.{
  codes, false, if◌then◌else◌, not, Bool, Bytes, refl, [], true, ◌++◌, ◌∷◌, ◌||◌, ◌≡◌, ◌==◌, arith,
}
use testforge.Json.Text.Number.{
  scan_sign, CLibrary, parse_number, scan_exponent, scan_power, scan_fraction, scan_integer,
  scan_some_digits, scan_digits, is_digit,
}
use testforge.Json.Text.Outcome.{failed, Outcome, and_then, done, Parser}
use testforge.Json.{Value}

-- A number that ends in front of this text is not read on into it.
unfoldable pub ends_number : Bytes → Bool
unfolding is_digit
ends_number [] = true
ends_number (c ∷ s) = not (is_digit c || c == b'.' || c == b'e' || c == b'E')

-- What becomes of a step when the text goes on with `rest`: a value stays the value.
data Extends {ℓ} {A : Type ℓ} (rest : Bytes) : Outcome A → Outcome A → Type ℓ where
  kept : {a : A} {u : Bytes} → Extends rest (done a u) (done a (u ++ rest))
  lost : {message u : Bytes} {r : Outcome A} → Extends rest (failed message u) r

Extends-done {ℓ} :
    {A : Type ℓ} {rest u : Bytes} {a : A} {p q : Outcome A}
    → Extends rest p q
    → p ≡ done a u
    → q ≡ done a (u ++ rest)
Extends-done kept e = cc
Extends-done lost e = cc

Extends-if {ℓ} :
    {A : Type ℓ} {rest : Bytes} (b : Bool) {x y z w : Outcome A}
    → Extends rest x z
    → Extends rest y w
    → Extends rest (if b then x else y) (if b then z else w)
Extends-if true p q = p
Extends-if false p q = q

Extends-and_then {ℓ κ} :
    {A : Type ℓ} {B : Type κ} {rest : Bytes} {p q : Outcome A} {f : A → Parser B}
    → Extends rest p q
    → ((a : A) (u : Bytes) → Extends rest (f a u) (f a (u ++ rest)))
    → Extends rest (and_then p f) (and_then q f)
unfolding and_then
Extends-and_then kept k = k _ _
Extends-and_then lost k = lost

module _ (rest : Bytes) (h : ends_number rest ≡ true) where
  scan_digits-append :
      (t : Bytes) → scan_digits (t ++ rest) ≡ ((scan_digits t).0, (scan_digits t).1 ++ rest)
  unfolding scan_digits ends_number
  scan_digits-append [] =
      elim rest as (λ r. ends_number r ≡ true → scan_digits r ≡ ([], r)) [
        | [] ↦ λ _. refl
        | c ∷ s ↦ λ e. ground arith
      ]
        h
  scan_digits-append (c ∷ t) = ground (arith, scan_digits-append t)

  scan_some_digits-Extends :
      (prefix message t : Bytes)
      → Extends rest
          (scan_some_digits prefix message t)
          (scan_some_digits prefix message (t ++ rest))
  unfolding scan_some_digits
  scan_some_digits-Extends prefix message [] = lost
  scan_some_digits-Extends prefix message (c ∷ t) =
      rw (scan_digits-append t) (Extends-if (is_digit c) kept lost)

  scan_integer-Extends : (t : Bytes) → Extends rest (scan_integer t) (scan_integer (t ++ rest))
  unfolding scan_integer
  scan_integer-Extends [] = lost
  scan_integer-Extends (c ∷ t) =
      rw (scan_digits-append t) (Extends-if (c == b'0') kept (Extends-if (is_digit c) kept lost))

  scan_fraction-Extends : (t : Bytes) → Extends rest (scan_fraction t) (scan_fraction (t ++ rest))
  unfolding scan_fraction ends_number
  scan_fraction-Extends [] =
      let same : scan_fraction rest ≡ done [] rest =
        elim rest as (λ r. ends_number r ≡ true → scan_fraction r ≡ done [] r) [
          | [] ↦ λ _. refl
          | c ∷ s ↦ λ e. ground arith
        ]
          h in
      rw same kept
  scan_fraction-Extends (c ∷ t) =
      Extends-if (c == b'.')
        (scan_some_digits-Extends (c ∷ []) (codes "expected digit after decimal point") t)
        (kept {a = []} {u = c ∷ t})

  scan_power-Extends :
      (prefix t : Bytes) → Extends rest (scan_power prefix t) (scan_power prefix (t ++ rest))
  unfolding scan_power
  scan_power-Extends prefix [] = lost
  scan_power-Extends prefix (c ∷ t) =
      Extends-if (c == b'+' || c == b'-') (scan_some_digits-Extends _ _ t)
        (scan_some_digits-Extends _ _ (c ∷ t))

  scan_exponent-Extends : (t : Bytes) → Extends rest (scan_exponent t) (scan_exponent (t ++ rest))
  unfolding scan_exponent ends_number
  scan_exponent-Extends [] =
      let same : scan_exponent rest ≡ done [] rest =
        elim rest as (λ r. ends_number r ≡ true → scan_exponent r ≡ done [] r) [
          | [] ↦ λ _. refl
          | c ∷ s ↦ λ e. ground arith
        ]
          h in
      rw same kept
  scan_exponent-Extends (c ∷ t) =
      Extends-if (c == b'e' || c == b'E') (scan_power-Extends (c ∷ []) t)
        (kept {a = []} {u = c ∷ t})

  parse_number-Extends :
      (libc : CLibrary) (t : Bytes)
      → Extends rest (parse_number libc t) (parse_number libc (t ++ rest))
  unfolding parse_number scan_sign
  parse_number-Extends libc [] = lost
  parse_number-Extends libc (c ∷ t) = Extends-and_then (Extends-if (c == b'-') kept kept) λ sign u.
      Extends-and_then (scan_integer-Extends u) λ whole v.
        Extends-and_then (scan_fraction-Extends v)
          λ fraction w. Extends-and_then (scan_exponent-Extends w) λ power x. kept

  -- A number that is a text of its own is read the same in front of what ends it.
  pub parse_number-append :
      (libc : CLibrary) (t : Bytes) (v : Value)
      → parse_number libc t ≡ done v []
      → parse_number libc (t ++ rest) ≡ done v rest
  parse_number-append libc t v = Extends-done (parse_number-Extends libc t)
