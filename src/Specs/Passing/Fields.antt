-- ===== src/Specs/Passing/Fields.antt =====
-- When the fields of a test pass (src/ai/SpecValidator.cpp: validateOne).
use testforge.Base.{
  codes, eq_bytes, ||_iff, length, All, eq_bytes_iff, Option, any, is_empty, ℤ, List, ℕ, negsuc,
  some, ◌++◌, ◌⊎◌, ◌+◌, if◌then◌else◌, Bool, Bytes, pos, inr, inl, refl, none, [], false, true, ◌∷◌,
  ◌↔◌, ◌≡◌, ◌≤◌, ◌≤ℤ◌, arith,
}
use testforge.Specs.Checks.{
  forbidden_headers, allowed_methods, ValidationIssue, unreachable, check_method, check_budget,
  check_headers, SpecValidator, check_name, check_acceptable, check_each_header, check_statuses,
  check_value, validate_one, check_assertions, check_each_assertion, check_assertion, bad_expected,
  check_body, is_null, check_endpoint, judge, bad_budget, bad_status, is_one_of,
}
use testforge.Json.{
  end, object, array, double, integer, member, string, boolean, Members, null, int_or, is_number,
  Value,
}
use testforge.Json.Text.Number.{CLibrary}
use testforge.Specs.{status_code_in, response_time_under, to_lower, Kind, TestSpec, SpecAssertion}
use testforge.Specs.Permitted.{
  IsReachable, HasExpected, AreHeaders, IsSafeName, IsAssertion, IsSafeEndpoint, IsPermitted,
  IsBody, IsHeaderValue, IsStatus, OneOf,
}
use testforge.Specs.Passing.{
  passes_none, warning_passes, passes_reason, confirmed, passes_both, passes_if, refuted, Passes,
}
use testforge.Specs.Validator.{any_fatal}
use testforge.Json.Access.{count_members}
use testforge.Url.Policy.{reject_raw}
use testforge.Specs.Passing.Texts.{
  unsafe_endpoint_iff, then_chain, unsafe_name_iff, has_control_character_iff, not_above,
}
use testforge.Json.Text.Printer.{dump}
use testforge.Url.{join_url}
use testforge.Decimal.{decimal}

pub is_one_of_iff : (t : Bytes) (ts : List Bytes) → (is_one_of t ts ≡ true) ↔ OneOf t ts
unfolding is_one_of any
is_one_of_iff t [] = (λ h. absurd (cc), λ h. elim h [ ])
is_one_of_iff t (u ∷ us) =
    let same = eq_bytes_iff u t in
    let later = is_one_of_iff t us in
    let either = ||_iff (eq_bytes u t) (any (λ w. eq_bytes w t) us) in
    (
      λ h. elim (either.0 h) [ inl e ↦ inl (same.0 e) | inr e ↦ inr (later.0 e) ],
      λ h. elim h [ inl e ↦ either.1 (inl (same.1 e)) | inr e ↦ either.1 (inr (later.1 e)) ],
    )

pub is_one_of-false : (t : Bytes) (ts : List Bytes) → (is_one_of t ts ≡ false) ↔ (¬ OneOf t ts)
is_one_of-false t ts = refuted _ (is_one_of_iff t ts)

bad_status_iff : (n : ℤ) → (bad_status n ≡ false) ↔ IsStatus n
unfolding bad_status
bad_status_iff n = ground arith

bad_budget_iff : (n : ℤ) → (bad_budget n ≡ false) ↔ ((pos 0 ≤ℤ n) × (n ≤ℤ pos 600_000))
unfolding bad_budget
bad_budget_iff n = ground arith

module _ (prefix : Bytes) where
  check_name_passes : (spec : TestSpec) → Passes (check_name prefix spec) (IsSafeName spec.name)
  unfolding check_name
  check_name_passes spec = passes_reason _ _ (unsafe_name_iff spec.name)

  check_method_passes :
      (spec : TestSpec) → Passes (check_method prefix spec) (OneOf spec.method allowed_methods)
  unfolding check_method
  check_method_passes spec =
      passes_if _ _ _ (confirmed _ (is_one_of_iff spec.method allowed_methods))

  check_acceptable_passes : (ns : List ℤ) → Passes (check_acceptable prefix ns) (All IsStatus ns)
  unfolding check_acceptable
  check_acceptable_passes [] = passes_none
  check_acceptable_passes (n ∷ ns) =
      passes_both _ _ (passes_if _ _ _ (bad_status_iff n)) (check_acceptable_passes ns)

  check_statuses_passes :
      (spec : TestSpec)
      → Passes
          (check_statuses prefix spec)
          (IsStatus spec.expected_status × All IsStatus spec.acceptable_statuses)
  unfolding check_statuses
  check_statuses_passes spec =
      passes_both _ _ (passes_if _ _ _ (bad_status_iff spec.expected_status))
        (check_acceptable_passes spec.acceptable_statuses)

  check_budget_passes :
      (spec : TestSpec)
      → Passes
          (check_budget prefix spec)
          ((pos 0 ≤ℤ spec.max_response_time_ms) × (spec.max_response_time_ms ≤ℤ pos 600_000))
  unfolding check_budget
  check_budget_passes spec = passes_if _ _ _ (bad_budget_iff spec.max_response_time_ms)

  check_value_passes :
      (key : Bytes) (v : Value) → Passes (check_value prefix key v) (IsHeaderValue v)
  unfolding check_value
  check_value_passes key (string value) =
      passes_both _ _ (passes_if _ _ _ (has_control_character_iff value))
        (passes_if _ _ _ (not_above 1024 (length value)))
  check_value_passes key null = passes_none
  check_value_passes key (boolean b) = passes_none
  check_value_passes key (integer n) = passes_none
  check_value_passes key (double bits) = passes_none
  check_value_passes key (array xs) = passes_none
  check_value_passes key (object ms) = passes_none

  check_each_header_passes : (ms : Members) → Passes (check_each_header prefix ms) (AreHeaders ms)
  unfolding check_each_header
  check_each_header_passes end = passes_none
  check_each_header_passes (member key value ms) =
      passes_both _ _ (passes_if _ _ _ (is_one_of-false (to_lower key) forbidden_headers)) (
        passes_both _ _ (passes_if _ _ _ (has_control_character_iff key))
          (passes_both _ _ (check_value_passes key value) (check_each_header_passes ms)))

  check_headers_passes :
      (spec : TestSpec)
      → Passes
          (check_headers prefix spec)
          ((count_members spec.headers ≤ 16) × AreHeaders spec.headers)
  unfolding check_headers
  check_headers_passes spec =
      passes_both _ _ (passes_if _ _ _ (not_above 16 (count_members spec.headers)))
        (check_each_header_passes spec.headers)

if_empty_iff :
    (s : Bytes) (reason : Bytes) → ((if is_empty s then none else some reason) ≡ none) ↔ (s ≡ [])
if_empty_iff [] reason = (λ _. refl, λ _. refl)
if_empty_iff (c ∷ s) reason = (λ h. absurd (cc), λ h. absurd (cc))

judge_iff :
    (v : SpecValidator) (o : Option Bytes)
    → (judge v o ≡ none)
      ↔ ((resolved : Bytes) × (o ≡ some resolved) × (reject_raw v.policy resolved ≡ []))
unfolding judge
judge_iff v none = (λ h. absurd (cc), λ (resolved, q, _). absurd (cc))
judge_iff v (some resolved) =
    let e = if_empty_iff (reject_raw v.policy resolved) _ in
    (λ h. (resolved, refl, e.0 h), λ (other, q, h). e.1 (cc (q, h)))

check_endpoint_passes :
    (v : SpecValidator) (prefix : Bytes) (spec : TestSpec)
    → Passes
        (check_endpoint v prefix spec)
        (IsSafeEndpoint spec.endpoint × IsReachable v spec.endpoint)
unfolding check_endpoint unreachable
check_endpoint_passes v prefix spec = passes_reason _ _ (
    then_chain _ _ (unsafe_endpoint_iff spec.endpoint)
      (judge_iff v (join_url v.base_url spec.endpoint)))

is_null_iff : (body : Value) → (is_null body ≡ true) ↔ (body ≡ null)
unfolding is_null
is_null_iff null = (λ _. refl, λ _. refl)
is_null_iff (boolean b) = (λ h. absurd (cc), λ h. absurd (cc))
is_null_iff (integer n) = (λ h. absurd (cc), λ h. absurd (cc))
is_null_iff (double bits) = (λ h. absurd (cc), λ h. absurd (cc))
is_null_iff (string s) = (λ h. absurd (cc), λ h. absurd (cc))
is_null_iff (array xs) = (λ h. absurd (cc), λ h. absurd (cc))
is_null_iff (object ms) = (λ h. absurd (cc), λ h. absurd (cc))

-- A body that is not null, behind the check of its size only issues that are not fatal.
sized_passes :
    {P Q : Type 0} (b : Bool) (first rest : List ValidationIssue)
    → (b ≡ true) ↔ P
    → Passes first Q
    → any_fatal rest ≡ false
    → Passes (if b then [] else first ++ rest) (P ⊎ Q)
unfolding any_fatal
sized_passes true first rest p q r = (λ _. inl (p.0 refl), λ _. refl)
sized_passes false first rest p q r =
    let both = passes_both first rest q (λ _. tt {0}, λ _. r) in
    (λ h. inr (both.0 h).0, λ h. elim h [ inl x ↦ absurd (cc (p.1 x)) | inr x ↦ both.1 (x, tt) ])

check_body_passes :
    (libc : CLibrary) (prefix : Bytes) (spec : TestSpec)
    → Passes (check_body libc prefix spec) (IsBody libc spec.body)
unfolding check_body
check_body_passes libc prefix spec =
    sized_passes _ _ _ (is_null_iff spec.body)
      (passes_if _ _ _ (not_above 65536 (length (dump libc (negsuc 0) spec.body))))
      (warning_passes _ _ _)

bad_expected_iff : (k : Kind) (v : Value) → (bad_expected k v ≡ none) ↔ HasExpected k v
unfolding bad_expected is_number int_or
bad_expected_iff response_time_under (integer n) = ground arith
bad_expected_iff response_time_under (double bits) = ground arith
bad_expected_iff response_time_under _ = (λ h. absurd (cc), λ h. elim h [ ])
bad_expected_iff status_code_in (array xs) = (λ _. tt, λ _. refl)
bad_expected_iff status_code_in _ = (λ h. absurd (cc), λ h. elim h [ ])
bad_expected_iff _ _ = (λ _. tt, λ _. refl)

check_assertion_passes :
    (place : Bytes) (a : SpecAssertion) → Passes (check_assertion place a) (IsAssertion a)
unfolding check_assertion
check_assertion_passes place a =
    passes_both _ _ (passes_if _ _ _ (has_control_character_iff a.target)) (
      passes_both _ _ (passes_if _ _ _ (not_above 200 (length a.target)))
        (passes_reason _ _ (bad_expected_iff a.kind a.expected)))

check_each_assertion_passes :
    (prefix : Bytes) (i : ℕ) (rest : List SpecAssertion)
    → Passes (check_each_assertion prefix i rest) (All IsAssertion rest)
unfolding check_each_assertion
check_each_assertion_passes prefix i [] = passes_none
check_each_assertion_passes prefix i (a ∷ rest) =
    passes_both _ _ (check_assertion_passes _ a) (check_each_assertion_passes prefix (i + 1) rest)

check_assertions_passes :
    (prefix : Bytes) (spec : TestSpec)
    → Passes
        (check_assertions prefix spec)
        ((length spec.assertions ≤ 20) × All IsAssertion spec.assertions)
unfolding check_assertions
check_assertions_passes prefix spec =
    passes_both _ _ (passes_if _ _ _ (not_above 20 (length spec.assertions)))
      (check_each_assertion_passes prefix 0 spec.assertions)

-- The validator finds nothing fatal in a test exactly if the test is permitted: its name is safe, its
-- method allowed, its endpoint a safe path that resolves to a URL of which the policy approves, its
-- statuses, latency budget, headers, body and assertions are within the limits, and no header carries
-- credentials or routing.
pub validate_one_iff :
    (libc : CLibrary) (v : SpecValidator) (spec : TestSpec) (index : ℕ)
    → (any_fatal (validate_one libc v spec index) ≡ false) ↔ IsPermitted libc v spec
unfolding validate_one
validate_one_iff libc v spec index =
    let prefix = codes "tests[" ++ decimal (pos index) ++ codes "]" in
    passes_both _ _ (check_name_passes prefix spec) (
      passes_both _ _ (check_method_passes prefix spec) (
        passes_both _ _ (check_endpoint_passes v prefix spec) (
          passes_both _ _ (check_statuses_passes prefix spec) (
            passes_both _ _ (check_budget_passes prefix spec) (
              passes_both _ _ (check_headers_passes prefix spec) (
                passes_both _ _ (check_body_passes libc prefix spec)
                  (check_assertions_passes prefix spec)))))))
