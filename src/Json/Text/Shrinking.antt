-- ===== src/Json/Text/Shrinking.antt =====
-- The steps of the JSON parser that read a text or a number end within their fuel and leave less
-- than they were given (src/core/Json.cpp: Parser::parseString, Parser::parseNumber).
use testforge.Json.Text.Literal.{scan_hex}
use testforge.Base.{
  refl, ◌||◌, ◌&&◌, ◌≡◌, leb, ◌==◌, ltb, codes, length, ℕ, suc, zero, some, none, [], ◌∷◌, ◌<◌, ◌≤◌,
  ◌*◌, ◌+◌, Bytes, arith,
}
use testforge.Json.Text.Literal.{
  unhex, expect, parse_string, parse_chars, parse_escape, parse_unicode, second_unit, parse_hex4,
}
use testforge.Json.Text.Outcome.{
  failed, Ensures, Ensures-weaken, holds, rejected, Ensures-and_then, Ensures-if, Outcome,
}

-- The step kept within its fuel, and what it leaves is shorter than `s`.
abbrev pub Shrinks {ℓ} : {A : Type ℓ} → Bytes → Outcome A → Type ℓ
Shrinks s r = Ensures (λ _ rest. length rest < length s) r

abbrev pub Keeps {ℓ} : {A : Type ℓ} → Bytes → Outcome A → Type ℓ
Keeps s r = Ensures (λ _ rest. length rest ≤ length s) r

scan_hex-Keeps : (k value : ℕ) (s : Bytes) → Keeps s (scan_hex k value s)
unfolding scan_hex
scan_hex-Keeps zero value s = holds (omega arith)
scan_hex-Keeps (suc k) value [] = rejected
scan_hex-Keeps (suc k) value (c ∷ s) =
    elim (unhex c)
      as (λ o. Keeps (c ∷ s) (elim o [
        | none ↦ failed (codes "invalid hex digit in \\u escape") s
        | some d ↦ scan_hex k (value * 16 + d) s
      ])) [
        | none ↦ rejected
        | some d ↦ Ensures-weaken (scan_hex-Keeps k (value * 16 + d) s) λ _ rest h. omega arith
      ]

parse_hex4-Keeps : (s : Bytes) → Keeps s (parse_hex4 s)
unfolding parse_hex4
parse_hex4-Keeps s = Ensures-if (ltb (length s) 4) (λ _. rejected) λ _. scan_hex-Keeps 4 0 s

second_unit-Keeps : (cp : ℕ) (s : Bytes) → Keeps s (second_unit cp s)
unfolding second_unit
second_unit-Keeps cp [] = holds (omega arith)
second_unit-Keeps cp (a ∷ []) = holds (omega arith)
second_unit-Keeps cp (a ∷ b ∷ s) =
    Ensures-if (leb 0xD800 cp && leb cp 0xDBFF && a == b'\\' && b == b'u')
      (λ _. Ensures-and_then (parse_hex4-Keeps s) λ low rest h.
        Ensures-if (leb 0xDC00 low && leb low 0xDFFF) (λ _. holds (omega arith))
          (λ _. holds (omega arith)))
      (λ _. holds (omega arith))

parse_unicode-Keeps : (s : Bytes) → Keeps s (parse_unicode s)
unfolding parse_unicode
parse_unicode-Keeps s =
    Ensures-and_then (parse_hex4-Keeps s)
      λ cp rest h. Ensures-weaken (second_unit-Keeps cp rest) λ _ left k. omega arith

parse_escape-Shrinks : (s : Bytes) → Shrinks s (parse_escape s)
unfolding parse_escape
parse_escape-Shrinks [] = rejected
parse_escape-Shrinks (c ∷ s) =
    Ensures-if (c == b'"' || c == b'\\' || c == b'/') (λ _. holds (omega arith))
      λ _.
        Ensures-if (c == b'b') (λ _. holds (omega arith))
          λ _.
            Ensures-if (c == b'f') (λ _. holds (omega arith))
              λ _.
                Ensures-if (c == b'n') (λ _. holds (omega arith))
                  λ _.
                    Ensures-if (c == b'r') (λ _. holds (omega arith))
                      λ _.
                        Ensures-if (c == b't') (λ _. holds (omega arith))
                          λ _.
                            Ensures-if (c == b'u')
                              (λ _. Ensures-weaken (parse_unicode-Keeps s) λ _ rest h. omega arith)
                              (λ _. rejected)

parse_chars-Shrinks : (fuel : ℕ) (s : Bytes) → length s < fuel → Shrinks s (parse_chars fuel s)
unfolding parse_chars
parse_chars-Shrinks zero s h = absurd (omega arith)
parse_chars-Shrinks (suc fuel) [] h = rejected
parse_chars-Shrinks (suc fuel) (c ∷ s) h =
    Ensures-if (c == b'"') (λ _. holds (omega arith))
      λ _.
        Ensures-if (c == b'\\')
          (λ _. Ensures-and_then (parse_escape-Shrinks s) λ bytes rest k.
            Ensures-and_then (parse_chars-Shrinks fuel rest (omega arith))
              λ out left l. holds (omega arith))
          λ _.
            Ensures-if (ltb c 0x20) (λ _. rejected)
              λ _.
                Ensures-and_then (parse_chars-Shrinks fuel s (omega arith))
                  λ out left l. holds (omega arith)

pub parse_string-Shrinks : (s : Bytes) → Shrinks s (parse_string s)
unfolding parse_string expect
parse_string-Shrinks [] = rejected
parse_string-Shrinks (c ∷ s) =
    Ensures-and_then
      (Ensures-if {P = λ _ rest. rest ≡ s} (c == b'"') (λ _. holds refl) (λ _. rejected))
      λ _ rest e.
        Ensures-weaken (parse_chars-Shrinks (suc (length rest)) rest (omega arith))
          (λ _ left h. let shorter = rw e at h in omega arith)
