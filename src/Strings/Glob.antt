-- ===== src/Strings/Glob.antt =====
-- `globMatch` (src/core/StringUtils.cpp): the iterative matcher with one remembered star.
pub mod Pattern
pub mod Correct
pub mod Star
use testforge.Base.{
  length, Bool, suc, zero, some, none, [], false, true, ◌∷◌, ◌||◌, ◌&&◌, ◌*◌, ◌+◌, if◌then◌else◌,
  ◌==◌, ℕ, Option, Bytes, arith,
}

-- The variables of the loop. `p` and `t` are what is left of the pattern and of the text, that is
-- the suffixes at the source's two indices; `star` is what follows the last star seen and what was
-- left of the text when it was last tried (`starPattern + 1` and `starText`).
pub record Scan : Type 0 where
  pub p : Bytes
  pub t : Bytes
  pub star : Option (Bytes × Bytes)

-- One round of `while (t < text.size())` at the next byte of the text: `none` is `return false`.
unfoldable pub backtrack : Option (Bytes × Bytes) → Option Scan
backtrack none = none
backtrack (some (sp, [])) = none
backtrack (some (sp, c ∷ st)) = some (record { p = sp; t = st; star = some (sp, st) })

unfoldable pub round : Bytes → ℕ → Bytes → Option (Bytes × Bytes) → Option Scan
unfolding backtrack
round [] c t star = backtrack star
round (x ∷ p) c t star =
    if x == b'?' || x == c
    then some (record { p = p; t = t; star = star })
    else if x == b'*'
    then some (record { p = p; t = c ∷ t; star = some (p, c ∷ t) })
    else backtrack star

-- The closing loop: only stars may be left of the pattern.
unfoldable pub only_stars : Bytes → Bool
only_stars [] = true
only_stars (x ∷ p) = x == b'*' && only_stars p

-- The loop, with fuel; `none` means that the fuel ran out.
unfoldable pub scan : ℕ → Bytes → Bytes → Option (Bytes × Bytes) → Option Bool
unfolding only_stars
scan zero p t star = none
scan (suc fuel) p [] star = some (only_stars p)
scan (suc fuel) p (c ∷ t) star = elim (round p c t star) [
  | none ↦ some false
  | some s ↦ scan fuel s.p s.t s.star
]

-- Between two moves of the remembered star a round consumes a byte of the text or of the pattern.
abbrev pub glob_fuel : Bytes → Bytes → ℕ
glob_fuel pattern' text =
    suc (length text) * suc (length pattern' + length text) + suc (length pattern' + length text)

unfoldable pub glob_match : Bytes → Bytes → Bool
glob_match pattern' text = elim (scan (glob_fuel pattern' text) pattern' text none) [
  | none ↦ false
  | some b ↦ b
]
