-- ===== src/Keep/Buckets.antt =====
-- Splitting a list by the values of a function.
use testforge.Base.{
  lt→ltb, subst, ltb, List, suc, zero, refl, [], false, true, ◌++◌, ◌∷◌, ◌||◌, ◌&&◌, ◌≡◌, ◌<◌,
  if◌then◌else◌, ◌==◌, Bool, keep, ℕ, arith,
}
use mathlib.Core.List.{Perm, perm_middle}
use mathlib.Core.List.Perm

-- The elements with the values 0 … n - 1 of `h`, value by value.
abbrev pub buckets {ℓ} : {A : Type ℓ} → (A → ℕ) → ℕ → List A → List A
buckets h zero xs = []
buckets h (suc n) xs = buckets h n xs ++ keep (λ x. h x == n) xs

pub keep_all {ℓ} :
    {A : Type ℓ} (p : A → Bool) (xs : List A) → ((x : A) → p x ≡ true) → keep p xs ≡ xs
unfolding keep
keep_all p [] h = refl
keep_all p (x ∷ xs) h = ground (arith, h x, keep_all p xs h)

keep_none {ℓ} : {A : Type ℓ} (p : A → Bool) (xs : List A) → ((x : A) → p x ≡ false) → keep p xs ≡ []
unfolding keep
keep_none p [] h = refl
keep_none p (x ∷ xs) h = ground (arith, h x, keep_none p xs h)

-- One element goes to one of two lists, or to neither.
place {ℓ} :
    {A : Type ℓ} (first second third : Bool) (x : A) (low here both : List A)
    → third ≡ (first || second)
    → (first && second) ≡ false
    → Perm (low ++ here) both
    → Perm
        ((if first then x ∷ low else low) ++ (if second then x ∷ here else here))
        (if third then x ∷ both else both)
place true true c x low here both e f p = cc
place true false true x low here both e f p = Perm.cons x p
place true false false x low here both e f p = cc
place false true true x low here both e f p = Perm.trans (perm_middle low here) (Perm.cons x p)
place false true false x low here both e f p = cc
place false false true x low here both e f p = cc
place false false false x low here both e f p = p

module _ {ℓ} {A : Type ℓ} (h : A → ℕ) where
  keep-below-suc :
      (n : ℕ) (xs : List A)
      → Perm
          (keep (λ x. ltb (h x) n) xs ++ keep (λ x. h x == n) xs)
          (keep (λ x. ltb (h x) (suc n)) xs)
  unfolding keep
  keep-below-suc n [] = Perm.refl []
  keep-below-suc n (x ∷ xs) =
      place (ltb (h x) n) (h x == n) (ltb (h x) (suc n)) x _ _ _ (ground arith) (ground arith)
        (keep-below-suc n xs)

  buckets-perm : (n : ℕ) (xs : List A) → Perm (buckets h n xs) (keep (λ x. ltb (h x) n) xs)
  buckets-perm zero xs = rw (keep_none (λ x. ltb (h x) 0) xs (λ x. ground arith)) (Perm.refl [])
  buckets-perm (suc n) xs =
      Perm.trans (Perm.append_right _ (buckets-perm n xs)) (keep-below-suc n xs)

  pub buckets_all : (n : ℕ) (xs : List A) → ((x : A) → h x < n) → Perm (buckets h n xs) xs
  buckets_all n xs below =
      subst (Perm (buckets h n xs)) (keep_all (λ x. ltb (h x) n) xs (λ x. lt→ltb (h x) n (below x)))
        (buckets-perm n xs)
