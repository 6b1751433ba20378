-- ===== src/Examples/Texts.antt =====
-- Tests of the text functions, the identifiers, the status names and the globs.
use testforge.Strings.Glob.Star.{star_misses}
use testforge.Base.{false, [], codes, All, Bytes, refl, some, none, true, ◌∷◌, ◌≢◌, ◌≡◌}
use testforge.Strings.Glob.{glob_fuel, glob_match, scan}
use testforge.Strings.Glob.Pattern.{fits}
use testforge.Strings.Glob.Correct.{glob_match-fits}

abbrev abc : Bytes
abc = codes "abc"

abc-plain : All (λ c. c ≢ b'*') abc
abc-plain = (λ e. cc, (λ e. cc, (λ e. cc, tt)))

glob_match-fits_example :
    (scan (glob_fuel (codes "a*c") abc) (codes "a*c") abc none ≡ some (fits (codes "a*c") abc))
    × (glob_match (codes "a*c") abc ≡ fits (codes "a*c") abc)
glob_match-fits_example = glob_match-fits (codes "a*c") abc abc-plain

glob_abc : glob_match (codes "a*c") abc ≡ true
unfolding glob_match scan testforge.Strings.Glob.round
glob_abc = refl

star_misses_example :
    (glob_match (b'*' ∷ []) (codes "*ab") ≡ false) × (fits (b'*' ∷ []) (codes "*ab") ≡ true)
star_misses_example = star_misses (b'a') (codes "b")
