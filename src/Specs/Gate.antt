-- ===== src/Specs/Gate.antt =====
-- Which tests of a suite the validator lets through (src/ai/SpecValidator.cpp: validate).
use testforge.Base.{
  is_empty, zero, ◌<◌, ◌-◌, ◌↔◌, not, Option-cases, take, sym, subst, ap, Bool-cases, length, ℕ,
  List, Bytes, suc, inr, inl, refl, [], false, true, ◌∷◌, ◌⊎◌, ◌≡◌, ◌+◌, arith,
}
use testforge.Specs.{TestSpecSuite, to_lower, TestSpec}
use testforge.Json.Text.Number.{CLibrary}
use testforge.Specs.Validator.{
  max_tests, any_fatal, check_duplicate, Sieve, validate, sieve, all_issues, put_first,
}
use testforge.Specs.Checks.{is_one_of, ValidationIssue, SpecValidator}
use testforge.Specs.Permitted.{IsSafeName, OneOf, IsPermitted}
use testforge.Specs.Passing.{passes_if, passes_both, Passes}
use testforge.Specs.Passing.Fields.{validate_one_iff, is_one_of-false, is_one_of_iff}
use testforge.Specs.Safety.{unsafe_name}
use testforge.Specs.Passing.Texts.{unsafe_name_iff}

abbrev pub lower_name : TestSpec → Bytes
lower_name spec = to_lower spec.name

-- From the tests given, those kept: the permitted ones whose name has not been seen before, whatever
-- the case of its letters. A name counts as seen also where its test is dropped.
module _ (libc : CLibrary) (v : SpecValidator) where
  pub data Sifted : List Bytes → List TestSpec → List TestSpec → Type 0 where
    done : (seen : List Bytes) → Sifted seen [] []
    keeps :
        (seen : List Bytes) (spec : TestSpec) (specs kept : List TestSpec)
        → IsPermitted libc v spec
        → ¬ OneOf (lower_name spec) seen
        → Sifted (lower_name spec ∷ seen) specs kept
        → Sifted seen (spec ∷ specs) (spec ∷ kept)
    drops :
        (seen : List Bytes) (spec : TestSpec) (specs kept : List TestSpec)
        → (¬ IsPermitted libc v spec) ⊎ OneOf (lower_name spec) seen
        → Sifted (lower_name spec ∷ seen) specs kept
        → Sifted seen (spec ∷ specs) kept

put_first-fatal :
    (spec : TestSpec) (issues : List ValidationIssue) (rest : Sieve)
    → any_fatal issues ≡ true
    → ((put_first spec issues rest).kept ≡ rest.kept)
      × ((put_first spec issues rest).dropped ≡ suc rest.dropped)
unfolding put_first
put_first-fatal spec issues rest h = rw h (refl, refl)

put_first-clean :
    (spec : TestSpec) (issues : List ValidationIssue) (rest : Sieve)
    → any_fatal issues ≡ false
    → ((put_first spec issues rest).kept ≡ spec ∷ rest.kept)
      × ((put_first spec issues rest).dropped ≡ rest.dropped)
unfolding put_first
put_first-clean spec issues rest h = rw h (refl, refl)

length-take {ℓ} :
    {A : Type ℓ} (n : ℕ) (xs : List A) → length (take n xs) + (length xs - n) ≡ length xs
length-take zero xs = omega arith
length-take (suc n) [] = omega arith
length-take (suc n) (x ∷ xs) = omega (arith, length-take n xs)

not_empty_iff {ℓ} : {A : Type ℓ} (xs : List A) → (not (is_empty xs) ≡ true) ↔ (0 < length xs)
not_empty_iff [] = (λ h. absurd (cc), λ h. absurd (omega arith))
not_empty_iff (x ∷ xs) = (λ _. omega arith, λ _. refl)

module _ (libc : CLibrary) (v : SpecValidator) where
  all_issues_iff :
      (seen : List Bytes) (spec : TestSpec) (index : ℕ)
      → Passes
          (all_issues libc v seen spec index)
          (IsPermitted libc v spec × (¬ OneOf (lower_name spec) seen))
  unfolding all_issues check_duplicate
  all_issues_iff seen spec index =
      passes_both _ _ (validate_one_iff libc v spec index)
        (passes_if _ _ _ (is_one_of-false (lower_name spec) seen))

  -- Why a test with a fatal issue is dropped.
  fatal_reason :
      (seen : List Bytes) (spec : TestSpec) (index : ℕ)
      → any_fatal (all_issues libc v seen spec index) ≡ true
      → (¬ IsPermitted libc v spec) ⊎ OneOf (lower_name spec) seen
  fatal_reason seen spec index h = elim (Bool-cases (is_one_of (lower_name spec) seen)) [
    | inl e ↦ inr ((is_one_of_iff (lower_name spec) seen).0 e)
    | inr e ↦ inl (λ p.
        let new = (is_one_of-false (lower_name spec) seen).0 e in
        absurd (cc (h, (all_issues_iff seen spec index).1 (p, new))))
  ]

  sieve-Sifted :
      (seen : List Bytes) (index : ℕ) (specs : List TestSpec)
      → Sifted libc v seen specs (sieve libc v seen index specs).kept
  unfolding sieve
  sieve-Sifted seen index [] = done seen
  sieve-Sifted seen index (spec ∷ specs) =
      let issues = all_issues libc v seen spec index in
      let rest = sieve libc v (lower_name spec ∷ seen) (index + 1) specs in
      let later = sieve-Sifted (lower_name spec ∷ seen) (index + 1) specs in
      elim (Bool-cases (any_fatal issues)) [
        | inl e ↦
            subst (Sifted libc v seen (spec ∷ specs)) (sym (put_first-fatal spec issues rest e).0)
              (drops seen spec specs rest.kept (fatal_reason seen spec index e) later)
        | inr e ↦
            let fine = (all_issues_iff seen spec index).0 e in
            subst (Sifted libc v seen (spec ∷ specs)) (sym (put_first-clean spec issues rest e).0)
              (keeps seen spec specs rest.kept fine.0 fine.1 later)
      ]

  sieve-counted :
      (seen : List Bytes) (index : ℕ) (specs : List TestSpec)
      → length (sieve libc v seen index specs).kept + (sieve libc v seen index specs).dropped
        ≡ length specs
  unfolding sieve
  sieve-counted seen index [] = omega arith
  sieve-counted seen index (spec ∷ specs) =
      let issues = all_issues libc v seen spec index in
      let rest = sieve libc v (lower_name spec ∷ seen) (index + 1) specs in
      let later = sieve-counted (lower_name spec ∷ seen) (index + 1) specs in
      elim (Bool-cases (any_fatal issues)) [
        | inl e ↦
            let p = put_first-fatal spec issues rest e in omega (arith, ap length p.0, p.1, later)
        | inr e ↦
            let p = put_first-clean spec issues rest e in omega (arith, ap length p.0, p.1, later)
      ]

  -- The validator is a refinement of the rule: a suite without a safe name loses all its tests; of
  -- any other exactly those tests are kept, in order, that stand among the first ones up to the limit,
  -- are permitted and have a name that no earlier one of them has, whatever the case of its letters.
  pub validate-Sifted :
      (suite : TestSpecSuite)
      → (IsSafeName suite.suite
          × Sifted libc v [] (take (max_tests v) suite.tests) (validate libc v suite).1.tests)
        ⊎ ((¬ IsSafeName suite.suite) × ((validate libc v suite).1.tests ≡ []))
  unfolding validate
  validate-Sifted suite = elim (Option-cases (unsafe_name suite.suite)) [
    | inl e ↦ inl (
      (unsafe_name_iff suite.suite).0 e,
      rw (e, validate) (sieve-Sifted [] 0 (take (max_tests v) suite.tests)),
    )
    | inr (reason, e) ↦
        inr (λ safe. absurd (cc (e, (unsafe_name_iff suite.suite).1 safe)), rw (e, validate) refl)
  ]

  -- The report counts: the tests kept are those accepted, the accepted and the rejected are together
  -- those given, and the report is valid exactly if a test is left. The suite keeps its other fields.
  pub validate-counted :
      (suite : TestSpecSuite)
      → ((validate libc v suite).0.accepted ≡ length (validate libc v suite).1.tests)
        × ((validate libc v suite).0.accepted + (validate libc v suite).0.rejected
            ≡ length suite.tests)
        × (((validate libc v suite).0.valid ≡ true) ↔ (0 < length (validate libc v suite).1.tests))
        × ((validate libc v suite).1 ≡ record suite { tests = (validate libc v suite).1.tests })
  unfolding validate
  validate-counted suite = elim (Option-cases (unsafe_name suite.suite)) [
    | inl e ↦
        let first = take (max_tests v) suite.tests in
        let s = sieve libc v [] 0 first in
        let counted = sieve-counted [] 0 first in
        let cut = length-take (max_tests v) suite.tests in
        rw (e, validate) (refl, omega (arith, counted, cut), not_empty_iff s.kept, refl)
    | inr (reason, e) ↦
        rw (e, validate) (refl, omega arith, (λ h. absurd (cc), λ h. absurd (omega arith)), refl)
  ]
