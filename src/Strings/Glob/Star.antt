-- ===== src/Strings/Glob/Star.antt =====
-- A star in the text (`globMatch` of src/core/StringUtils.cpp, which compares the bytes before it looks
-- for a star).
use testforge.Base.{
  ap, Bool, Option, ◌∙◌, ◌-◌, ℕ, Bytes, suc, refl, some, none, [], false, true, ◌∷◌, ◌≡◌, arith,
}
use testforge.Strings.Glob.Pattern.{fits, any_suffix}
use testforge.Strings.Glob.{glob_fuel, backtrack, round, glob_match, scan}

any_suffix-empty : (t : Bytes) → any_suffix (fits []) t ≡ true
unfolding any_suffix fits
any_suffix-empty [] = refl
any_suffix-empty (c ∷ t) = ground (arith, any_suffix-empty t)

scan_star :
    (fuel c : ℕ) (t : Bytes) → scan (suc (suc fuel)) (b'*' ∷ []) (b'*' ∷ c ∷ t) none ≡ some false
unfolding scan round backtrack
scan_star fuel c t = refl

-- The pattern `*` stands for any text, but the matcher refuses every text that begins with a star and
-- goes on behind it.
pub star_misses :
    (c : ℕ) (t : Bytes)
    → (glob_match (b'*' ∷ []) (b'*' ∷ c ∷ t) ≡ false) × (fits (b'*' ∷ []) (b'*' ∷ c ∷ t) ≡ true)
unfolding glob_match fits
star_misses c t =
    (ap answer enough ∙ ap decide (scan_star spare c t), any_suffix-empty (b'*' ∷ c ∷ t))
  where
    spare : ℕ
    spare = glob_fuel (b'*' ∷ []) (b'*' ∷ c ∷ t) - 2

    enough : glob_fuel (b'*' ∷ []) (b'*' ∷ c ∷ t) ≡ suc (suc spare)
    enough = omega arith

    decide : Option Bool → Bool
    decide r = elim r [ none ↦ false | some b ↦ b ]

    answer : ℕ → Bool
    answer fuel = decide (scan fuel (b'*' ∷ []) (b'*' ∷ c ∷ t) none)
