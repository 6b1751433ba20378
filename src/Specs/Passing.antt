-- ===== src/Specs/Passing.antt =====
-- When the checks of a generated test find nothing fatal (src/ai/SpecValidator.cpp): rules for their
-- lists of issues, for chains of tests and for the loops over texts.
pub mod Texts
pub mod Fields
use testforge.Base.{
  All, if◌then◌else◌, not, any, sym, Option, refl, some, none, [], false, true, ◌++◌, ◌∷◌, ◌||◌,
  ◌↔◌, ◌∙◌, ◌≡◌, Bool, Bytes, List, arith,
}
use testforge.Specs.Checks.{add_reason, add_if, ValidationIssue}
use testforge.Specs.Validator.{any_fatal}

-- The issues hold no fatal one exactly if the property holds.
abbrev pub Passes : List ValidationIssue → Type 0 → Type 0
Passes issues P = (any_fatal issues ≡ false) ↔ P

any_fatal-append : (a b : List ValidationIssue) → any_fatal (a ++ b) ≡ (any_fatal a || any_fatal b)
unfolding any_fatal
any_fatal-append [] b = refl
any_fatal-append (i ∷ a) b = ground (arith, any_fatal-append a b)

pub passes_none : Passes [] Unit
unfolding any_fatal
passes_none = (λ _. tt, λ _. refl)

-- An issue that is not fatal, where there is one.
pub warning_passes :
    (b : Bool) (place message : Bytes)
    → any_fatal
        (if b then record { where_found = place; message = message; fatal = false } ∷ [] else [])
      ≡ false
unfolding any_fatal
warning_passes true place message = refl
warning_passes false place message = refl

||-false : (a b : Bool) → ((a || b) ≡ false) ↔ ((a ≡ false) × (b ≡ false))
||-false a b = ground arith

pub passes_both :
    {P Q : Type 0} (a b : List ValidationIssue) → Passes a P → Passes b Q → Passes (a ++ b) (P × Q)
passes_both a b p q =
    let e = any_fatal-append a b in
    let both = ||-false (any_fatal a) (any_fatal b) in
    (
      λ h. let parts = both.0 (sym e ∙ h) in (p.0 parts.0, q.0 parts.1),
      λ h. e ∙ both.1 (p.1 h.0, q.1 h.1),
    )

pub passes_if :
    {P : Type 0} (b : Bool) (place message : Bytes)
    → (b ≡ false) ↔ P
    → Passes (add_if b place message) P
unfolding add_if any_fatal
passes_if true place message p = (λ h. absurd (cc), λ h. absurd (cc (p.1 h)))
passes_if false place message p = (λ _. p.0 refl, λ _. refl)

pub passes_reason :
    {P : Type 0} (place : Bytes) (reason : Option Bytes)
    → (reason ≡ none) ↔ P
    → Passes (add_reason place reason) P
unfolding add_reason any_fatal
passes_reason place none p = (λ _. p.0 refl, λ _. refl)
passes_reason place (some reason) p = (λ h. absurd (cc), λ h. absurd (cc (p.1 h)))

-- A chain of tests of which each may give a reason.
pub unless_if :
    {P Q : Type 0} (b : Bool) (reason : Bytes) (later : Option Bytes)
    → (b ≡ false) ↔ P
    → (later ≡ none) ↔ Q
    → ((if b then some reason else later) ≡ none) ↔ (P × Q)
unless_if true reason later p q = (λ h. absurd (cc), λ h. absurd (cc (p.1 h.0)))
unless_if false reason later p q = (λ h. (p.0 refl, q.0 h), λ h. q.1 h.1)

pub last_if :
    {P : Type 0} (b : Bool) (reason : Bytes)
    → (b ≡ false) ↔ P
    → ((if b then some reason else none) ≡ none) ↔ P
last_if true reason p = (λ h. absurd (cc), λ h. absurd (cc (p.1 h)))
last_if false reason p = (λ h. p.0 refl, λ h. refl)

pub refuted {ℓ} : {P : Type ℓ} (b : Bool) → (b ≡ true) ↔ P → (b ≡ false) ↔ (¬ P)
refuted true p = (λ h. absurd (cc), λ h. absurd (h (p.0 refl)))
refuted false p = (λ _ x. absurd (cc (p.1 x)), λ _. refl)

pub confirmed {ℓ} : {P : Type ℓ} (b : Bool) → (b ≡ true) ↔ P → (not b ≡ false) ↔ P
confirmed true p = (λ _. p.0 refl, λ _. refl)
confirmed false p = (λ h. absurd (cc), λ x. absurd (cc (p.1 x)))

pub neither :
    {P Q : Type 0} (a b : Bool) → (a ≡ false) ↔ P → (b ≡ false) ↔ Q → ((a || b) ≡ false) ↔ (P × Q)
neither true b p q = (λ h. absurd (cc), λ h. absurd (cc (p.1 h.0)))
neither false b p q = (λ h. (p.0 refl, q.0 h), λ h. q.1 h.1)

pub any-All {ℓ κ} :
    {A : Type ℓ} {P : A → Type κ} (test : A → Bool)
    → ((x : A) → (test x ≡ false) ↔ P x)
    → (xs : List A) → (any test xs ≡ false) ↔ All P xs
unfolding any
any-All test p [] = (λ _. tt, λ _. refl)
any-All test p (x ∷ xs) =
    let later = any-All test p xs in
    (
      λ h. let parts = (||-false (test x) (any test xs)).0 h in ((p x).0 parts.0, later.0 parts.1),
      λ h. (||-false (test x) (any test xs)).1 ((p x).1 h.0, later.1 h.1),
    )
