-- ===== src/StringMap.antt =====
-- `std::map` with `std::string` keys, as the list of its entries in the order of the keys.
use testforge.Base.{
  lt_bytes_irrefl, lt_bytes_flip, subst, eq_bytes→eq, lt_bytes_trans, eq_bytes_iff, Bool-cases, All,
  lt_bytes, Option, inr, inl, refl, some, none, [], true, ◌∷◌, ◌≡◌, if◌then◌else◌, List, Bytes,
  eq_bytes, arith,
}

module _ {ℓ} {V : Type ℓ} where
  unfoldable pub lookup : Bytes → List (Bytes × V) → Option V
  unfolding eq_bytes
  lookup k [] = none
  lookup k ((j, v) ∷ m) = let later = lookup k m in if eq_bytes j k then some v else later

  -- `m[k] = v`.
  unfoldable pub insert : Bytes → V → List (Bytes × V) → List (Bytes × V)
  unfolding eq_bytes lt_bytes
  insert k v [] = (k, v) ∷ []
  insert k v ((j, w) ∷ m) =
      let later = insert k v m in
      if eq_bytes j k
      then (k, v) ∷ m
      else if lt_bytes k j
      then (k, v) ∷ (j, w) ∷ m
      else (j, w) ∷ later

  -- Every key comes after this one.
  abbrev pub Above : Bytes → List (Bytes × V) → Type 0
  Above k = All (λ p. lt_bytes k p.0 ≡ true)

  -- The keys ascend, so each stands once.
  abbrev pub IsOrdered : List (Bytes × V) → Type 0
  IsOrdered [] = Unit
  IsOrdered ((k, v) ∷ m) = Above k m × IsOrdered m

  pub Above-trans :
      (j k : Bytes) (m : List (Bytes × V)) → lt_bytes j k ≡ true → Above k m → Above j m
  Above-trans j k [] h a = tt
  Above-trans j k ((i, v) ∷ m) h (a, as_rest) =
      (lt_bytes_trans j k i h a, Above-trans j k m h as_rest)

  Above-insert :
      (j k : Bytes) (v : V) (m : List (Bytes × V))
      → lt_bytes j k ≡ true
      → Above j m
      → Above j (insert k v m)
  unfolding insert
  Above-insert j k v [] h a = (h, tt)
  Above-insert j k v ((i, w) ∷ m) h (a, rest) = ground (arith, Above-insert j k v m h rest)

  pub insert-IsOrdered :
      (k : Bytes) (v : V) (m : List (Bytes × V)) → IsOrdered m → IsOrdered (insert k v m)
  unfolding insert
  insert-IsOrdered k v [] o = (tt, tt)
  insert-IsOrdered k v ((j, w) ∷ m) (a, o) = elim (Bool-cases (eq_bytes j k)) [
    | inl same ↦ rw same (subst (λ i. Above i m) (eq_bytes→eq j k same) a, o)
    | inr differ ↦ rw differ (elim (Bool-cases (lt_bytes k j)) [
      | inl before ↦ rw before ((before, Above-trans k j m before a), (a, o))
      | inr after ↦
          rw after
            (Above-insert j k v m (lt_bytes_flip j k differ after) a, insert-IsOrdered k v m o)
    ])
  ]

  -- A key that is inserted is found with its value, and every other key as before.
  pub lookup-insert :
      (k j : Bytes) (v : V) (m : List (Bytes × V))
      → lookup j (insert k v m) ≡ (if eq_bytes k j then some v else lookup j m)
  unfolding lookup insert
  lookup-insert k j v [] = refl
  lookup-insert k j v ((i, w) ∷ m) =
      ground (arith, eq_bytes_iff k j, eq_bytes_iff i k, eq_bytes_iff i j, lookup-insert k j v m)

  -- A property of every entry is kept by the insertion of an entry that has it.
  pub All-insert {κ} :
      (P : Bytes × V → Type κ) (k : Bytes) (v : V) (m : List (Bytes × V))
      → P (k, v)
      → All P m
      → All P (insert k v m)
  unfolding insert
  All-insert P k v [] h a = (h, tt)
  All-insert P k v ((i, w) ∷ m) h (a, rest) = ground (arith, All-insert P k v m h rest)

  -- A key below all keys of a map is not in it.
  pub lookup-Above : (k : Bytes) (m : List (Bytes × V)) → Above k m → lookup k m ≡ none
  unfolding lookup
  lookup-Above k [] a = refl
  lookup-Above k ((j, v) ∷ m) (a, rest) = elim (Bool-cases (eq_bytes j k)) [
    | inl same ↦
        absurd (cc (subst (λ i. lt_bytes k i ≡ true) (eq_bytes→eq j k same) a, lt_bytes_irrefl k))
    | inr differ ↦ rw differ (lookup-Above k m rest)
  ]
