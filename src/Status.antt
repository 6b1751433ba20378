-- ===== src/Status.antt =====
-- Outcomes and causes of a test execution (include/testforge/core/Status.hpp, src/core/Status.cpp).
use testforge.Base.{eq_bytes→eq, ◌↔◌, ◌∙◌, sym}
use testforge.Base.{
  if◌then◌else◌, Bytes, codes, ◌≡◌, refl, Bool, true, false, Option, none, some, List, [], ◌∷◌,
  arith,
}
use testforge.Strings.Case.{equals_ignore_case, to_lower, equals_ignore_case-to_lower}

pub data TestStatus : Type 0 where
  passed failed skipped error timeout : TestStatus

pub data FailureCategory : Type 0 where
  no_failure assertion_failure timed_out network_failure environment_failure : FailureCategory
  resource_failure application_failure dependency_failure configuration_failure : FailureCategory
  framework_error unknown : FailureCategory

unfoldable pub is_failure : TestStatus → Bool
is_failure passed = false
is_failure failed = true
is_failure skipped = false
is_failure error = true
is_failure timeout = true

unfoldable pub status_to_string : TestStatus → Bytes
status_to_string passed = codes "PASSED"
status_to_string failed = codes "FAILED"
status_to_string skipped = codes "SKIPPED"
status_to_string error = codes "ERROR"
status_to_string timeout = codes "TIMEOUT"

unfoldable pub category_to_string : FailureCategory → Bytes
category_to_string no_failure = codes "NONE"
category_to_string assertion_failure = codes "ASSERTION_FAILURE"
category_to_string timed_out = codes "TIMEOUT"
category_to_string network_failure = codes "NETWORK_FAILURE"
category_to_string environment_failure = codes "ENVIRONMENT_FAILURE"
category_to_string resource_failure = codes "RESOURCE_FAILURE"
category_to_string application_failure = codes "APPLICATION_FAILURE"
category_to_string dependency_failure = codes "DEPENDENCY_FAILURE"
category_to_string configuration_failure = codes "CONFIGURATION_FAILURE"
category_to_string framework_error = codes "FRAMEWORK_ERROR"
category_to_string unknown = codes "UNKNOWN"

-- The terminal escapes: green, red, grey, magenta and yellow.
unfoldable pub ansi_color : TestStatus → Bytes
ansi_color passed = 27 ∷ codes "[32m"
ansi_color failed = 27 ∷ codes "[31m"
ansi_color skipped = 27 ∷ codes "[90m"
ansi_color error = 27 ∷ codes "[35m"
ansi_color timeout = 27 ∷ codes "[33m"

abbrev pub all_test_statuses : List TestStatus
all_test_statuses = passed ∷ failed ∷ skipped ∷ error ∷ timeout ∷ []

abbrev pub all_failure_categories : List FailureCategory
all_failure_categories =
    no_failure ∷ assertion_failure ∷ timed_out ∷ network_failure ∷ environment_failure
    ∷ resource_failure ∷ application_failure ∷ dependency_failure ∷ configuration_failure
    ∷ framework_error ∷ unknown ∷ []

-- The loop that both `…FromString` functions make over the enumerators.
unfoldable pub first_named {ℓ} : {A : Type ℓ} → (A → Bytes) → Bytes → List A → Option A
unfolding equals_ignore_case
first_named name text [] = none
first_named name text (a ∷ rest) =
    let later = first_named name text rest in
    if equals_ignore_case text (name a) then some a else later

unfoldable pub test_status_from_string : Bytes → Option TestStatus
unfolding first_named status_to_string
test_status_from_string text = first_named status_to_string text all_test_statuses

unfoldable pub failure_category_from_string : Bytes → Option FailureCategory
unfolding first_named category_to_string
failure_category_from_string text = first_named category_to_string text all_failure_categories

first_named_sound {ℓ} :
    {A : Type ℓ} (name : A → Bytes) (text : Bytes) (xs : List A) (a : A)
    → first_named name text xs ≡ some a
    → equals_ignore_case text (name a) ≡ true
unfolding first_named
first_named_sound name text [] a h = cc
first_named_sound name text (x ∷ xs) a h = ground (arith, first_named_sound name text xs a)

first_named-to_lower {ℓ} :
    {A : Type ℓ} (name : A → Bytes) (t u : Bytes) (xs : List A)
    → to_lower t ≡ to_lower u
    → first_named name t xs ≡ first_named name u xs
unfolding first_named
first_named-to_lower name t u [] e = refl
first_named-to_lower name t u (x ∷ xs) e =
    let same : equals_ignore_case t (name x) ≡ equals_ignore_case u (name x) =
      rw (equals_ignore_case-to_lower t (name x), equals_ignore_case-to_lower u (name x), e) in
    rw (same, first_named-to_lower name t u xs e)

-- A name in any mix of cases is the name of one constant of the list alone, provided that each
-- exact name is found.
first_named_iff {ℓ} :
    {A : Type ℓ} (name : A → Bytes) (text : Bytes) (xs : List A) (a : A)
    → first_named name (name a) xs ≡ some a
    → (first_named name text xs ≡ some a) ↔ (to_lower text ≡ to_lower (name a))
first_named_iff name text xs a exact = (
  λ h.
      eq_bytes→eq _ _
        (sym (equals_ignore_case-to_lower text (name a)) ∙ first_named_sound name text xs a h),
  λ e. first_named-to_lower name text (name a) xs e ∙ exact,
)

status-exact : (s : TestStatus) → test_status_from_string (status_to_string s) ≡ some s
unfolding test_status_from_string
status-exact passed = refl
status-exact failed = refl
status-exact skipped = refl
status-exact error = refl
status-exact timeout = refl

category-exact :
    (c : FailureCategory) → failure_category_from_string (category_to_string c) ≡ some c
unfolding failure_category_from_string
category-exact no_failure = refl
category-exact assertion_failure = refl
category-exact timed_out = refl
category-exact network_failure = refl
category-exact environment_failure = refl
category-exact resource_failure = refl
category-exact application_failure = refl
category-exact dependency_failure = refl
category-exact configuration_failure = refl
category-exact framework_error = refl
category-exact unknown = refl

-- A text is read as a status exactly when it is the status's own name, up to the case of its
-- letters.
pub test_status_from_string_iff :
    (text : Bytes) (s : TestStatus)
    → (test_status_from_string text ≡ some s) ↔ (to_lower text ≡ to_lower (status_to_string s))
unfolding test_status_from_string
test_status_from_string_iff text s =
    first_named_iff status_to_string text all_test_statuses s (status-exact s)

-- A text is read as a failure category exactly when it is the category's own name, up to the case of
-- its letters.
pub failure_category_from_string_iff :
    (text : Bytes) (c : FailureCategory)
    → (failure_category_from_string text ≡ some c)
      ↔ (to_lower text ≡ to_lower (category_to_string c))
unfolding failure_category_from_string
failure_category_from_string_iff text c =
    first_named_iff category_to_string text all_failure_categories c (category-exact c)
