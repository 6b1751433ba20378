-- ===== src/Sorting/Order.antt =====
-- The order and the elements of a sorted list.
use mathlib.Core.List.{Mem, Nodup, Nodup-cons, mem-cons_self}
use mathlib.Core.Logic.{∥∥₁_elim}
use testforge.Base.{
  All-keep, Bool, keep, sym, subst, ap₂, le_lt_bytes_trans, ◌∙◌, map, lt_bytes_tri, lt_bytes_asymm,
  ge_bytes_trans, Bool-cases, lt_bytes, All, List, inr, inl, refl, [], false, ◌∷◌, ◌≢◌, ◌≡◌, Bytes,
  arith,
}
use mathlib.Core.List.Perm
use mathlib.Core.List.{Perm, Permᴰ}
use testforge.Sorting.{IsSorted, sort_by, sort_insert}

module _ {ℓ} {A : Type ℓ} (key : A → Bytes) where
  All-sort_insert {κ} :
      (P : A → Type κ) (x : A) (ys : List A) → P x → All P ys → All P (sort_insert key x ys)
  unfolding sort_insert
  All-sort_insert P x [] h a = (h, tt)
  All-sort_insert P x (y ∷ ys) h (a, rest) = ground (arith, All-sort_insert P x ys h rest)

  pub All-sort_by {κ} : (P : A → Type κ) (xs : List A) → All P xs → All P (sort_by key xs)
  unfolding sort_by
  All-sort_by P [] h = tt
  All-sort_by P (x ∷ xs) (h, hs) = All-sort_insert P x (sort_by key xs) h (All-sort_by P xs hs)

  All-ge :
      (x y : A) (ys : List A)
      → lt_bytes (key y) (key x) ≡ false
      → All (λ z. lt_bytes (key z) (key y) ≡ false) ys
      → All (λ z. lt_bytes (key z) (key x) ≡ false) ys
  All-ge x y [] h a = tt
  All-ge x y (z ∷ zs) h (a, rest) =
      (ge_bytes_trans (key x) (key y) (key z) h a, All-ge x y zs h rest)

  sort_insert-IsSorted :
      (x : A) (ys : List A) → IsSorted key ys → IsSorted key (sort_insert key x ys)
  unfolding sort_insert
  sort_insert-IsSorted x [] h = (tt, tt)
  sort_insert-IsSorted x (y ∷ ys) (h, hs) = elim (Bool-cases (lt_bytes (key y) (key x))) [
    | inl before ↦ rw before (
      All-sort_insert (λ z. lt_bytes (key z) (key y) ≡ false) x ys
          (lt_bytes_asymm (key y) (key x) before) h,
      sort_insert-IsSorted x ys hs,
    )
    | inr after ↦ rw after ((after, All-ge x y ys after h), (h, hs))
  ]

  pub sort_by-IsSorted : (xs : List A) → IsSorted key (sort_by key xs)
  unfolding sort_by
  sort_by-IsSorted [] = tt
  sort_by-IsSorted (x ∷ xs) = sort_insert-IsSorted x (sort_by key xs) (sort_by-IsSorted xs)

  sort_insert-perm : (x : A) (ys : List A) → Perm (sort_insert key x ys) (x ∷ ys)
  unfolding sort_insert
  sort_insert-perm x [] = Perm.refl (x ∷ [])
  sort_insert-perm x (y ∷ ys) = elim (Bool-cases (lt_bytes (key y) (key x))) [
    | inl before ↦ rw before (Perm.trans (Perm.cons y (sort_insert-perm x ys)) (Perm.swap x y ys))
    | inr after ↦ rw after (Perm.refl (x ∷ y ∷ ys))
  ]

  pub sort_by-perm : (xs : List A) → Perm (sort_by key xs) xs
  unfolding sort_by
  sort_by-perm [] = Perm.refl []
  sort_by-perm (x ∷ xs) =
      Perm.trans (sort_insert-perm x (sort_by key xs)) (Perm.cons x (sort_by-perm xs))

  sort_insert_comm :
      (x y : A) (zs : List A)
      → key x ≢ key y
      → sort_insert key x (sort_insert key y zs) ≡ sort_insert key y (sort_insert key x zs)
  unfolding sort_insert
  sort_insert_comm x y [] ne =
      ground (arith, lt_bytes_tri (key x) (key y), lt_bytes_asymm (key x) (key y))
  sort_insert_comm x y (z ∷ zs) ne = ground (
    arith,
    sort_insert_comm x y zs ne,
    lt_bytes_tri (key x) (key y),
    lt_bytes_asymm (key x) (key y),
    lt_bytes_asymm (key y) (key x),
    le_lt_bytes_trans (key x) (key z) (key y),
    le_lt_bytes_trans (key y) (key z) (key x),
  )

  sort_by-Permᴰ :
      {xs ys : List A} → Permᴰ xs ys → Nodup (map key xs) → sort_by key xs ≡ sort_by key ys
  unfolding sort_by
  sort_by-Permᴰ Permᴰ.nil n = refl
  sort_by-Permᴰ (Permᴰ.cons e d) n = ap₂ (sort_insert key) e (sort_by-Permᴰ d (Nodup-cons.0 n).1)
  sort_by-Permᴰ (Permᴰ.swap {a} {b} {l = l} e f) n =
      sort_insert_comm a b (sort_by key l) differ
      ∙ ap₂ (λ u v. sort_insert key u (sort_insert key v (sort_by key l))) f e
    where
      differ : key a ≢ key b
      differ h = (Nodup-cons.0 n).0 (subst (λ k. Mem k (key b ∷ map key l)) (sym h) mem-cons_self)
  sort_by-Permᴰ (Permᴰ.trans d d') n =
      sort_by-Permᴰ d n ∙ sort_by-Permᴰ d' (Perm.nodup (Perm.map key ∣ d ∣₁) n)

  -- Where no two elements have one text, the sorted list depends only on which elements there are.
  pub sort_by-perm-eq :
      IsSet A → {xs ys : List A} → Perm xs ys → Nodup (map key xs) → sort_by key xs ≡ sort_by key ys
  sort_by-perm-eq set {xs} {ys} p n =
      let lists : IsSet (List A) = hlevel set in
      ∥∥₁_elim p (lists (sort_by key xs) (sort_by key ys)) (λ d. sort_by-Permᴰ d n)

  pub keep-IsSorted : (p : A → Bool) (xs : List A) → IsSorted key xs → IsSorted key (keep p xs)
  unfolding keep
  keep-IsSorted p [] h = tt
  keep-IsSorted p (x ∷ xs) (h, hs) =
      ground (arith, keep-IsSorted p xs hs, All-keep (λ y. lt_bytes (key y) (key x) ≡ false) p xs h)
