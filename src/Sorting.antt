-- ===== src/Sorting.antt =====
-- `std::sort` by a text that each element has, as an insertion sort: where two elements have one
-- text, the earlier one stays in front, which is one of the orders that `std::sort` allows.
pub mod Order
use testforge.Base.{All, List, lt_bytes, [], false, ◌∷◌, ◌≡◌, if◌then◌else◌, Bytes, arith}

module _ {ℓ} {A : Type ℓ} (key : A → Bytes) where
  unfoldable pub sort_insert : A → List A → List A
  unfolding lt_bytes
  sort_insert x [] = x ∷ []
  sort_insert x (y ∷ ys) =
      let later = sort_insert x ys in if lt_bytes (key y) (key x) then y ∷ later else x ∷ y ∷ ys

  unfoldable pub sort_by : List A → List A
  unfolding sort_insert
  sort_by [] = []
  sort_by (x ∷ xs) = sort_insert x (sort_by xs)

  -- No element has a text before that of an earlier one.
  abbrev pub IsSorted : List A → Type 0
  IsSorted [] = Unit
  IsSorted (x ∷ xs) = All (λ y. lt_bytes (key y) (key x) ≡ false) xs × IsSorted xs
