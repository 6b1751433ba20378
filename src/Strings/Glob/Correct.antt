-- ===== src/Strings/Glob/Correct.antt =====
-- The loop of `globMatch` against the meaning of a pattern (src/core/StringUtils.cpp).
use testforge.Base.{
  Bool-cases, ℕ_discrete, zero, inr, inl, ◌==◌, true, sym, ap, length, Bool, All, Option, suc, refl,
  some, none, [], false, ◌∷◌, ◌||◌, ◌≢◌, ◌∙◌, ◌≡◌, ◌<◌, ◌≤◌, ◌*◌, ◌+◌, ℕ, Bytes, arith,
}
use testforge.Strings.Glob.Pattern.{
  any_suffix-weaken, Run-commits, here, Run-length, extend, Run-short, Run, fits, any_suffix,
}
use testforge.Strings.Glob.{glob_fuel, glob_match, round, only_stars, scan, backtrack}

-- What the remembered star may still reach, beyond the position that is being tried.
unfoldable pub later : Option (Bytes × Bytes) → Bool
unfolding any_suffix
later none = false
later (some (sp, [])) = false
later (some (sp, c ∷ st)) = any_suffix (fits sp) st

-- What is left of the text since the star.
abbrev reach : Bytes → Option (Bytes × Bytes) → ℕ
reach t none = length t
reach t (some (sp, st)) = length st

abbrev Starless : Bytes → Type 0
Starless = All (λ c. c ≢ b'*')

-- The loop's invariant, with a bound `b` on what is left of pattern and text together.
abbrev Good : ℕ → Bytes → Bytes → Option (Bytes × Bytes) → Type 0
Good b p t none = length p + length t ≤ b
Good b p t (some (sp, st)) =
    (length p + length t ≤ b) × (length sp + length st ≤ b) × Run sp st p t × Starless st

abbrev work : ℕ → Bytes → Bytes → Option (Bytes × Bytes) → ℕ
work b p t star = reach t star * suc b + (length p + length t)

abbrev Decides : ℕ → Bytes → Bytes → Option (Bytes × Bytes) → Type 0
Decides fuel p t star = scan fuel p t star ≡ some (fits p t || later star)

any_suffix-first : (sp st : Bytes) → any_suffix (fits sp) st ≡ (fits sp st || later (some (sp, st)))
unfolding later any_suffix
any_suffix-first sp [] = ground arith
any_suffix-first sp (c ∷ st) = refl

-- After a mismatch: the loop ends, or goes on from the star one byte further.
backtrack-Decides :
    (b fuel : ℕ) (p t : Bytes) (star : Option (Bytes × Bytes))
    → Good b p t star
    → ((sp st : Bytes)
        → length sp + length st ≤ b
        → Starless st
        → work b sp st (some (sp, st)) < fuel
        → Decides fuel sp st (some (sp, st)))
    → work b p t star < suc fuel
    → elim (backtrack star) [ none ↦ some false | some s ↦ scan fuel s.p s.t s.star ]
      ≡ some (later star)
unfolding backtrack later
backtrack-Decides b fuel p t none g ih w = refl
backtrack-Decides b fuel p t (some (sp, [])) g ih w = refl
backtrack-Decides b fuel p t (some (sp, c ∷ st)) (small, kept, r, clean) ih w =
    ih sp st (omega arith) clean.1 (omega arith) ∙ ap some (sym (any_suffix-first sp st))

only_stars-fits : (p : Bytes) → only_stars p ≡ fits p []
unfolding only_stars fits any_suffix
only_stars-fits [] = refl
only_stars-fits (x ∷ p) = ground (arith, only_stars-fits p)

any_suffix-short :
    (sp st p : Bytes) (u : Bytes)
    → Run sp st p []
    → length u < length st
    → any_suffix (fits sp) u ≡ false
unfolding any_suffix
any_suffix-short sp st p [] r h = Run-short [] r (omega arith)
any_suffix-short sp st p (c ∷ u) r h =
    ground (arith, Run-short (c ∷ u) r (omega arith), any_suffix-short sp st p u r (omega arith))

-- At the end of the text nothing that the star could still reach is left.
later-end :
    (b : ℕ) (p : Bytes) (star : Option (Bytes × Bytes)) → Good b p [] star → later star ≡ false
unfolding later
later-end b p none g = refl
later-end b p (some (sp, [])) g = refl
later-end b p (some (sp, c ∷ st)) g = any_suffix-short sp (c ∷ st) p st g.2 (omega arith)

module _ (b x c : ℕ) (p t : Bytes) where
  Good-literal :
      (star : Option (Bytes × Bytes))
      → (x ≡ b'*' → ⊥)
      → Good b (x ∷ p) (c ∷ t) star
      → Good b p t star
  Good-literal none ne g = omega arith
  Good-literal (some (sp, st)) ne (small, kept, r, clean) = (omega arith, kept, extend ne r, clean)

  work-literal : (star : Option (Bytes × Bytes)) → work b p t star < work b (x ∷ p) (c ∷ t) star
  work-literal none = omega arith
  work-literal (some (sp, st)) = omega arith

  work-star :
      (star : Option (Bytes × Bytes))
      → Good b (x ∷ p) (c ∷ t) star
      → work b p (c ∷ t) (some (p, c ∷ t)) < work b (x ∷ p) (c ∷ t) star
  work-star none g = omega arith
  work-star (some (sp, st)) (small, kept, r, clean) =
      let shorter : suc (length t) ≤ length st = Run-length r in
      let product : suc (length t) * suc b ≤ length st * suc b = grind arith in omega arith

  later-star :
      (star : Option (Bytes × Bytes))
      → x ≡ b'*'
      → Good b (x ∷ p) (c ∷ t) star
      → later star ≡ true
      → any_suffix (fits p) (c ∷ t) ≡ true
  unfolding later
  later-star none e g h = cc
  later-star (some (sp, [])) e g h = cc
  later-star (some (sp, d ∷ st)) e g h =
      Run-commits p g.2 (ap (λ y. y ∷ p) e) (any_suffix-weaken (fits sp) d st h)

  round_star :
      (star : Option (Bytes × Bytes))
      → x ≡ b'*'
      → c ≢ b'*'
      → round (x ∷ p) c t star ≡ some (record { p = p; t = c ∷ t; star = some (p, c ∷ t) })
  unfolding round
  round_star star e ne = ground arith

  fits_star : x ≡ b'*' → fits (x ∷ p) (c ∷ t) ≡ any_suffix (fits p) (c ∷ t)
  unfolding fits
  fits_star e = ground arith

  round_hit :
      (star : Option (Bytes × Bytes))
      → (x == b'?' || x == c) ≡ true
      → round (x ∷ p) c t star ≡ some (record { p = p; t = t; star = star })
  unfolding round
  round_hit star e = rw e

  fits_hit : x ≢ b'*' → (x == b'?' || x == c) ≡ true → fits (x ∷ p) (c ∷ t) ≡ fits p t
  unfolding fits
  fits_hit ne e = ground arith

  round_miss :
      (star : Option (Bytes × Bytes))
      → x ≢ b'*'
      → (x == b'?' || x == c) ≡ false
      → round (x ∷ p) c t star ≡ backtrack star
  unfolding round
  round_miss star ne e = ground arith

  fits_miss : x ≢ b'*' → (x == b'?' || x == c) ≡ false → fits (x ∷ p) (c ∷ t) ≡ false
  unfolding fits
  fits_miss ne e = ground arith

round_nil : (c : ℕ) (t : Bytes) (star : Option (Bytes × Bytes)) → round [] c t star ≡ backtrack star
unfolding round
round_nil c t star = refl

fits_nil : (c : ℕ) (t : Bytes) → fits [] (c ∷ t) ≡ false
unfolding fits
fits_nil c t = refl

or_absorbs : (a b : Bool) → (b ≡ true → a ≡ true) → a ≡ (a || b)
or_absorbs true b h = refl
or_absorbs false true h = h refl
or_absorbs false false h = refl

scan-Decides :
    (b fuel : ℕ) (p t : Bytes) (star : Option (Bytes × Bytes))
    → Good b p t star
    → Starless t
    → work b p t star < fuel
    → Decides fuel p t star
unfolding scan
scan-Decides b zero p t star g clean w = absurd (omega arith)
scan-Decides b (suc fuel) p [] star g clean w =
    rw (later-end b p star g, only_stars-fits p) (ground arith)
scan-Decides b (suc fuel) [] (c ∷ t) star g clean w =
    rw (round_nil c t star, scan, fits_nil c t)
      (backtrack-Decides b fuel [] (c ∷ t) star g
        (λ sp st small cl k.
          scan-Decides b fuel sp st (some (sp, st)) (small, small, here, cl) cl k)
        w)
scan-Decides b (suc fuel) (x ∷ p) (c ∷ t) star g (h, clean) w = elim (ℕ_discrete x b'*') [
  | yes e ↦
      rw (round_star b x c p t star e h, scan, fits_star b x c p t e)
        (scan-Decides b fuel p (c ∷ t) (some (p, c ∷ t)) (Good-star star g) (h, clean)
            (omega (arith, work-star b x c p t star g))
          ∙ ap some (
              sym (any_suffix-first p (c ∷ t))
              ∙ or_absorbs _ (later star) (later-star b x c p t star e g)))
  | no ne ↦ elim (Bool-cases (x == b'?' || x == c)) [
    | inl hit ↦
        rw (round_hit b x c p t star hit, scan, fits_hit b x c p t ne hit)
          (scan-Decides b fuel p t star (Good-literal b x c p t star ne g) clean
            (omega (arith, work-literal b x c p t star)))
    | inr miss ↦
        rw (round_miss b x c p t star ne miss, scan, fits_miss b x c p t ne miss)
          (backtrack-Decides b fuel (x ∷ p) (c ∷ t) star g
            (λ sp st small cl k.
              scan-Decides b fuel sp st (some (sp, st)) (small, small, here, cl) cl k)
            w)
  ]
]
  where
    Good-star :
        (s : Option (Bytes × Bytes)) → Good b (x ∷ p) (c ∷ t) s → Good b p (c ∷ t) (some (p, c ∷ t))
    Good-star none k = (omega arith, omega arith, here, (h, clean))
    Good-star (some (sp, st)) k = (omega arith, omega arith, here, (h, clean))

-- The loop ends within its fuel, and on a text that holds no star the matcher answers whether the
-- pattern fits the text.
pub glob_match-fits :
    (pattern' text : Bytes)
    → All (λ c. c ≢ b'*') text
    → (scan (glob_fuel pattern' text) pattern' text none ≡ some (fits pattern' text))
      × (glob_match pattern' text ≡ fits pattern' text)
unfolding glob_match
glob_match-fits pattern' text clean =
    let e : scan (glob_fuel pattern' text) pattern' text none ≡ some (fits pattern' text) =
      scan-Decides (length pattern' + length text) (glob_fuel pattern' text) pattern' text none
        (omega arith) clean (omega arith)
      ∙ ap some (unfold later in ground arith) in
    (e, rw (e, glob_match))
