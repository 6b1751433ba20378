-- ===== src/Strings/Glob/Pattern.antt =====
-- What a glob pattern means, by recursion on the pattern, and how far a matcher may commit to the
-- first text that a run of literals fits.
use testforge.Base.{
  subst, is_empty, length, Bool, [], false, true, ◌∷◌, ◌||◌, ◌≡◌, ◌<◌, ◌≤◌, ◌+◌, if◌then◌else◌,
  ◌==◌, ℕ, Bytes, arith,
}

-- Some suffix of the text passes, the text itself or the empty one among them.
unfoldable pub any_suffix : (Bytes → Bool) → Bytes → Bool
any_suffix f [] = f []
any_suffix f (c ∷ t) = f (c ∷ t) || any_suffix f t

unfoldable pub literal : ℕ → (Bytes → Bool) → Bytes → Bool
literal x f [] = false
literal x f (c ∷ t) = if x == b'?' || x == c then f t else false

-- `*` stands for any text, `?` for any byte, and any other byte for itself.
unfoldable pub fits : Bytes → Bytes → Bool
unfolding any_suffix literal
fits [] t = is_empty t
fits (x ∷ p) t = if x == b'*' then any_suffix (fits p) t else literal x (fits p) t

-- `Run sp st p t`: from the pattern `sp` at the text `st`, bytes that are no stars have been matched
-- one by one, and `p` and `t` are left.
pub data Run : Bytes → Bytes → Bytes → Bytes → Type 0 where
  here : {p t : Bytes} → Run p t p t
  there : {x c : ℕ} {sp st p t : Bytes} → (x ≡ b'*' → ⊥) → Run sp st p t → Run (x ∷ sp) (c ∷ st) p t

pub extend :
    {sp st : Bytes} {x c : ℕ} {p t : Bytes}
    → (x ≡ b'*' → ⊥)
    → Run sp st (x ∷ p) (c ∷ t)
    → Run sp st p t
extend ne here = there ne here
extend ne (there ne' r) = there ne' (extend ne r)

pub Run-length : {sp st p t : Bytes} → Run sp st p t → length t ≤ length st
Run-length here = omega arith
Run-length (there ne r) = omega (arith, Run-length r)

pub any_suffix-weaken :
    (f : Bytes → Bool) (c : ℕ) (t : Bytes) → any_suffix f t ≡ true → any_suffix f (c ∷ t) ≡ true
unfolding any_suffix
any_suffix-weaken f c t h = ground arith

-- A text shorter than the run's own literals does not fit.
pub Run-short :
    {sp st p t : Bytes} (u : Bytes)
    → Run sp st p t
    → length u + length t < length st
    → fits sp u ≡ false
unfolding fits
Run-short u here h = absurd (omega arith)
Run-short [] (there {x} ne r) h = ground arith
Run-short (d ∷ u) (there {x} {sp = sp} ne r) h = ground (arith, Run-short u r (omega arith))

any_suffix_self : (f : Bytes → Bool) (t : Bytes) → f t ≡ true → any_suffix f t ≡ true
unfolding any_suffix
any_suffix_self f [] h = h
any_suffix_self f (c ∷ t) h = ground arith

any_suffix-tail :
    (x : ℕ) (p t : Bytes)
    → (x ≡ b'*' → ⊥)
    → any_suffix (fits (x ∷ p)) t ≡ true
    → any_suffix (fits p) t ≡ true
unfolding any_suffix fits
any_suffix-tail x p [] ne h = ground arith
any_suffix-tail x p (c ∷ t) ne h =
    ground
      (arith, any_suffix_self (fits p) t, any_suffix-tail x p t ne, any_suffix-weaken (fits p) c t)

star_absorbs : (r u : Bytes) → any_suffix (fits (b'*' ∷ r)) u ≡ true → any_suffix (fits r) u ≡ true
unfolding any_suffix fits
star_absorbs r [] h = h
star_absorbs r (c ∷ u) h = ground (arith, star_absorbs r u, any_suffix-weaken (fits r) c u)

literal_absorbs :
    (x c : ℕ) (sp st : Bytes)
    → (x ≡ b'*' → ⊥)
    → any_suffix (fits (x ∷ sp)) (c ∷ st) ≡ true
    → any_suffix (fits sp) st ≡ true
unfolding any_suffix fits
literal_absorbs x c sp st ne h =
    ground (arith, any_suffix_self (fits sp) st, any_suffix-tail x sp st ne)

-- At a second star the choices that the first star left may be forgotten: whatever they could still
-- reach, the second star reaches.
pub Run-commits :
    {sp st p t : Bytes} (q : Bytes)
    → Run sp st p t
    → p ≡ b'*' ∷ q
    → any_suffix (fits sp) st ≡ true
    → any_suffix (fits q) t ≡ true
Run-commits q (here {p} {t}) e h = star_absorbs q t (subst (λ s. any_suffix (fits s) t ≡ true) e h)
Run-commits q (there {x} {c} {sp} {st} ne r) e h =
    Run-commits q r e (literal_absorbs x c sp st ne h)
