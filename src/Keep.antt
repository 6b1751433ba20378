-- ===== src/Keep.antt =====
-- Lists up to permutation, measured in native numbers; and the Boolean filter against the library's lists: membership, permutations, distinct keys.
pub mod Buckets
use mathlib.Core.List.{Permᴰ}
use mathlib.Core.Logic.{∥∥₁_elim}
use testforge.Base.{
  ap, suc, ◌∙◌, length, Bool-cases, map, List, keep, inr, inl, refl, [], true, ◌∷◌, ◌↔◌, ◌≡◌, Bool,
  arith,
}
use mathlib.Core.List.{filter, Mem, mem-filter, Nodup, Sublist, Sublistᴰ, Perm}
use mathlib.Core.List.Perm
use mathlib.Core.List.Nodup
use mathlib.Core.Bool.{Bool-discrete}
use native.Mathlib.Nat.{ℕ_set}

Permᴰ-length {ℓ} : {A : Type ℓ} {xs ys : List A} → Permᴰ xs ys → length xs ≡ length ys
Permᴰ-length Permᴰ.nil = refl
Permᴰ-length (Permᴰ.cons e d) = ap suc (Permᴰ-length d)
Permᴰ-length (Permᴰ.swap e f) = refl
Permᴰ-length (Permᴰ.trans d d') = Permᴰ-length d ∙ Permᴰ-length d'

pub Perm-length {ℓ} : {A : Type ℓ} {xs ys : List A} → Perm xs ys → length xs ≡ length ys
Perm-length p = ∥∥₁_elim p (ℕ_set _ _) Permᴰ-length

module _ {ℓ} {A : Type ℓ} (p : A → Bool) where
  abbrev passes : (x : A) → Dec (p x ≡ true)
  passes x = Bool-discrete (p x) true

  keep-eq-filter : (xs : List A) → keep p xs ≡ filter passes xs
  unfolding keep
  keep-eq-filter [] = refl
  keep-eq-filter (x ∷ xs) = ground (arith, keep-eq-filter xs)

  pub mem-keep : (x : A) (xs : List A) → Mem x (keep p xs) ↔ (Mem x xs × (p x ≡ true))
  mem-keep x xs = rw (keep-eq-filter xs) (mem-filter passes)

  pub keep-perm : {xs ys : List A} → Perm xs ys → Perm (keep p xs) (keep p ys)
  keep-perm {xs} {ys} h = rw (keep-eq-filter xs, keep-eq-filter ys) (Perm.filter passes h)

  keep-Sublistᴰ {κ} :
      {K : Type κ} (key : A → K) (xs : List A) → Sublistᴰ (map key (keep p xs)) (map key xs)
  unfolding keep
  keep-Sublistᴰ key [] = Sublistᴰ.slnil
  keep-Sublistᴰ key (x ∷ xs) = elim (Bool-cases (p x)) [
    | inl kept ↦ rw kept (Sublistᴰ.cons-cons refl (keep-Sublistᴰ key xs))
    | inr gone ↦ rw gone (Sublistᴰ.cons (keep-Sublistᴰ key xs))
  ]

  -- Distinct keys stay distinct.
  pub keep-Nodup {κ} :
      {K : Type κ} (key : A → K) (xs : List A) → Nodup (map key xs) → Nodup (map key (keep p xs))
  keep-Nodup key xs n = Nodup.sublist ∣ keep-Sublistᴰ key xs ∣₁ n
