-- ===== src/Json/Text/Outcome.antt =====
-- What the JSON parser hands on (src/core/Json.cpp: Parser, ParseError). A step takes the text from
-- `pos_` on and returns a value with the text that is left.
use testforge.Base.{Bool, subst, Bytes, refl, false, true, ◌≢◌, ◌≡◌, if◌then◌else◌}

-- `failed` is a thrown ParseError: its message, and the text from `pos_` on. `starved` has no
-- counterpart in the source: the fuel did not suffice.
pub data Outcome {ℓ} (A : Type ℓ) : Type ℓ where
  done : A → Bytes → Outcome A
  failed : Bytes → Bytes → Outcome A
  starved : Outcome A

abbrev pub Parser {ℓ} : Type ℓ → Type ℓ
Parser A = Bytes → Outcome A

abbrev pub pure {ℓ} : {A : Type ℓ} → A → Parser A
pure a s = done a s

abbrev pub fail {ℓ} : {A : Type ℓ} → Bytes → Parser A
fail message s = failed message s

module _ {ℓ κ} {A : Type ℓ} {B : Type κ} where
  unfoldable pub and_then : Outcome A → (A → Parser B) → Outcome B
  and_then (done a s) f = f a s
  and_then (failed message s) f = failed message s
  and_then starved f = starved

  infixl 1 ◌>>=◌ ◌>>◌
  abbrev pub ◌>>=◌ : Parser A → (A → Parser B) → Parser B
  p >>= f = λ s. and_then (p s) f

  abbrev pub ◌>>◌ : Parser A → Parser B → Parser B
  p >> q = p >>= λ _. q

-- The step kept within its fuel, and `P` holds of the value and the text that is left.
pub data Ensures {ℓ κ} {A : Type ℓ} (P : A → Bytes → Type κ) : Outcome A → Type (ℓ ⊔ κ) where
  holds : {a : A} {s : Bytes} → P a s → Ensures P (done a s)
  rejected : {message s : Bytes} → Ensures P (failed message s)

module _ {ℓ κ} {A : Type ℓ} {P : A → Bytes → Type κ} where
  pub Ensures-done : {r : Outcome A} {a : A} {s : Bytes} → Ensures P r → r ≡ done a s → P a s
  Ensures-done (holds h) e = subst (λ (p : A × Bytes). P p.0 p.1) (cc) h
  Ensures-done rejected e = cc

  pub Ensures-starved : {r : Outcome A} → Ensures P r → r ≢ starved
  Ensures-starved (holds h) = cc
  Ensures-starved rejected = cc

  pub Ensures-if :
      (b : Bool) {x y : Outcome A}
      → (b ≡ true → Ensures P x)
      → (b ≡ false → Ensures P y)
      → Ensures P (if b then x else y)
  Ensures-if true p q = p refl
  Ensures-if false p q = q refl

  pub Ensures-and_then {μ ν} :
      {B : Type μ} {Q : B → Bytes → Type ν} {r : Outcome B} {f : B → Parser A}
      → Ensures Q r
      → ((b : B) (s : Bytes) → Q b s → Ensures P (f b s))
      → Ensures P (and_then r f)
  unfolding and_then
  Ensures-and_then (holds h) k = k _ _ h
  Ensures-and_then rejected k = rejected

  pub Ensures-weaken {μ} :
      {Q : A → Bytes → Type μ} {r : Outcome A}
      → Ensures Q r
      → ((a : A) (s : Bytes) → Q a s → P a s)
      → Ensures P r
  Ensures-weaken (holds h) k = holds (k _ _ h)
  Ensures-weaken rejected k = rejected
