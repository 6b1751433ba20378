-- ===== src/Specs/Target.antt =====
-- What is true of the tests that the validator has let through (src/ai/SpecValidator.cpp with joinUrl
-- of src/net/Url.cpp).
use testforge.Base.{
  sym, pos_part, subst, max, Bytes, take, length, All, suc, zero, inr, inl, some, [], ◌∷◌, ◌≢◌, ◌≡◌,
  ◌≤◌, ℕ, List, arith,
}
use testforge.Json.Text.Number.{CLibrary}
use testforge.Specs.{TestSpecSuite, TestSpec}
use testforge.Specs.Checks.{SpecValidator}
use testforge.Specs.Gate.{drops, keeps, done, validate-Sifted, Sifted, lower_name}
use testforge.Specs.Validator.{validate, max_tests}
use testforge.Specs.Permitted.{OneOf}
use testforge.Url.{join_url, parse_url, Url}
use testforge.Url.Joined.{NamesServer}
use testforge.Url.Policy.{reject_raw}

All-imp {ℓ κ μ} :
    {A : Type ℓ} {P : A → Type κ} {Q : A → Type μ}
    → ((x : A) → P x → Q x)
    → (xs : List A) → All P xs
    → All Q xs
All-imp f [] h = tt
All-imp f (x ∷ xs) h = (f x h.0, All-imp f xs h.1)

length-take-le {ℓ} : {A : Type ℓ} (n : ℕ) (xs : List A) → length (take n xs) ≤ n
length-take-le zero xs = omega arith
length-take-le (suc n) [] = omega arith
length-take-le (suc n) (x ∷ xs) = omega (arith, length-take-le n xs)

-- No two tests have one name, whatever the case of its letters.
abbrev pub AreDistinct : List TestSpec → Type 0
AreDistinct [] = Unit
AreDistinct (t ∷ ts) = All (λ u. lower_name t ≢ lower_name u) ts × AreDistinct ts

-- A safe and reachable endpoint asks the server of the base URL, with the policy's approval.
abbrev pub AsksBase : SpecValidator → Bytes → Type 0
AsksBase v endpoint =
    (u : Url) × (resolved : Bytes) × (parse_url v.base_url ≡ some u)
    × (join_url v.base_url endpoint ≡ some resolved)
    × NamesServer u resolved
    × (reject_raw v.policy resolved ≡ [])

module _ (libc : CLibrary) (v : SpecValidator) where
  Sifted-new :
      {seen : List Bytes} {specs kept : List TestSpec}
      → Sifted libc v seen specs kept
      → All (λ t. ¬ OneOf (lower_name t) seen) kept
  Sifted-new (done seen) = tt
  Sifted-new (keeps seen spec specs kept p n later) =
      (n, All-imp (λ t h x. h (inr x)) kept (Sifted-new later))
  Sifted-new (drops seen spec specs kept r later) =
      All-imp (λ t h x. h (inr x)) kept (Sifted-new later)

  Sifted-AreDistinct :
      {seen : List Bytes} {specs kept : List TestSpec}
      → Sifted libc v seen specs kept
      → AreDistinct kept
  Sifted-AreDistinct (done seen) = tt
  Sifted-AreDistinct (keeps seen spec specs kept p n later) =
      (All-imp (λ t h e. h (inl e)) kept (Sifted-new later), Sifted-AreDistinct later)
  Sifted-AreDistinct (drops seen spec specs kept r later) = Sifted-AreDistinct later

  Sifted-length :
      {seen : List Bytes} {specs kept : List TestSpec}
      → Sifted libc v seen specs kept
      → length kept ≤ length specs
  Sifted-length (done seen) = omega arith
  Sifted-length (keeps seen spec specs kept p n later) = omega (arith, Sifted-length later)
  Sifted-length (drops seen spec specs kept r later) = omega (arith, Sifted-length later)

  kept_with :
      (P : List TestSpec → Type 0) (suite : TestSpecSuite)
      → P []
      → ((kept : List TestSpec) → Sifted libc v [] (take (max_tests v) suite.tests) kept → P kept)
      → P (validate libc v suite).1.tests
  kept_with P suite nothing full = elim (validate-Sifted libc v suite) [
    | inl (safe, sifted) ↦ full (validate libc v suite).1.tests sifted
    | inr (unsafe, e) ↦ subst P (sym e) nothing
  ]

  -- The tests that a suite is left with are at most as many as the limit, and at most one where the
  -- limit is below 1, and no two of them have one name, whatever the case of its letters.
  pub validate-AreDistinct :
      (suite : TestSpecSuite)
      → (length (validate libc v suite).1.tests ≤ max 1 (pos_part v.max_generated_tests))
        × AreDistinct (validate libc v suite).1.tests
  unfolding max_tests
  validate-AreDistinct suite =
      kept_with (λ kept. (length kept ≤ max 1 (pos_part v.max_generated_tests)) × AreDistinct kept)
        suite (omega arith, tt)
        (λ kept s. (
          omega (arith, Sifted-length s, length-take-le (max_tests v) suite.tests),
          Sifted-AreDistinct s,
        ))
