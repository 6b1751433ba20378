-- ===== src/Specs/Validator.antt =====
-- The validator over a whole suite, and its report (src/ai/SpecValidator.cpp: validate,
-- ValidationIssue::toJson, ValidationReport::summary and toJson).
use testforge.Base.{
  not, take, length, pos_part, is_empty, Bool, max, codes, ltb, Bytes, ℕ, pos, suc, some, none,
  false, ◌++◌, ◌∷◌, ◌||◌, ◌&&◌, ◌-◌, ◌+◌, if◌then◌else◌, List, [],
}
use testforge.Specs.Checks.{
  add_if, fatal_issue, ValidationReport, ValidationIssue, SpecValidator, validate_one, is_one_of,
}
use testforge.Specs.{TestSpecSuite, TestSpec}
use testforge.Strings.Case.{to_lower}
use testforge.Decimal.{decimal}
use testforge.Specs.Safety.{unsafe_name}
use testforge.Json.{array, integer, string, end, object, boolean, Value, set_member}
use testforge.Specs.Writing.{items_from}
use testforge.Json.Text.Number.{CLibrary}

unfoldable pub any_fatal : List ValidationIssue → Bool
any_fatal [] = false
any_fatal (i ∷ issues) = i.fatal || any_fatal issues

-- The set `seenNames` is a list of the names in lower case.
unfoldable pub check_duplicate : List Bytes → TestSpec → ℕ → List ValidationIssue
unfolding add_if is_one_of to_lower decimal
check_duplicate seen spec index =
    add_if (is_one_of (to_lower spec.name) seen)
      (codes "tests[" ++ decimal (pos index) ++ codes "].name")
      (codes "duplicate test name '" ++ spec.name ++ codes "' within the suite")

unfoldable pub all_issues :
    CLibrary → SpecValidator → List Bytes → TestSpec → ℕ → List ValidationIssue
unfolding validate_one check_duplicate
all_issues libc v seen spec index =
    validate_one libc v spec index ++ check_duplicate seen spec index

-- What the loop of `validate` has gathered.
pub record Sieve : Type 0 where
  pub kept : List TestSpec
  pub dropped : ℕ
  pub found : List ValidationIssue

abbrev pub nothing_found : Sieve
nothing_found = record { kept = []; dropped = 0; found = [] }

unfoldable pub put_first : TestSpec → List ValidationIssue → Sieve → Sieve
unfolding any_fatal
put_first spec issues rest =
    if any_fatal issues
    then record rest { dropped = suc rest.dropped; found = issues ++ rest.found }
    else record rest { kept = spec ∷ rest.kept; found = issues ++ rest.found }

unfoldable pub sieve : CLibrary → SpecValidator → List Bytes → ℕ → List TestSpec → Sieve
unfolding put_first all_issues to_lower
sieve libc v seen index [] = nothing_found
sieve libc v seen index (spec ∷ specs) =
    put_first spec (all_issues libc v seen spec index)
      (sieve libc v (to_lower spec.name ∷ seen) (index + 1) specs)

unfoldable pub max_tests : SpecValidator → ℕ
max_tests v = max 1 (pos_part v.max_generated_tests)

-- The note that a suite is cut to the number of tests that are allowed.
unfoldable pub check_size : SpecValidator → List TestSpec → List ValidationIssue
unfolding max_tests decimal
check_size v tests =
    if ltb (max_tests v) (length tests)
    then record {
      where_found = codes "tests";
      message =
          codes "the specification contains "
          ++ decimal (pos (length tests))
          ++ codes " tests; keeping the first "
          ++ decimal (pos (max_tests v))
          ++ codes " (ai.max_generated_tests)";
      fatal = false;
    }
      ∷ []
    else []

abbrev pub no_usable_tests : List ValidationIssue
no_usable_tests =
    fatal_issue (codes "tests") (codes "the specification produced no usable tests") ∷ []

unfoldable pub validate :
    CLibrary → SpecValidator → TestSpecSuite → ValidationReport × TestSpecSuite
unfolding unsafe_name max_tests check_size sieve
validate libc v suite = elim (unsafe_name suite.suite) [
  | some reason ↦ (
    record {
      valid = false;
      accepted = 0;
      rejected = length suite.tests;
      issues = fatal_issue (codes "suite") (codes "suite name is not usable: " ++ reason) ∷ [];
    },
    record suite { tests = [] },
  )
  | none ↦
      let s = sieve libc v [] 0 (take (max_tests v) suite.tests) in
      let issues = check_size v suite.tests ++ s.found in
      let none_left = is_empty s.kept in
      (
        record {
          valid = not none_left;
          accepted = length s.kept;
          rejected = length suite.tests - max_tests v + s.dropped;
          issues = if none_left && is_empty issues then no_usable_tests else issues;
        },
        record suite { tests = s.kept },
      )
]

unfoldable pub issue_to_json : ValidationIssue → Value
unfolding set_member
issue_to_json i = object (
    set_member (codes "fatal") (boolean i.fatal) (
      set_member (codes "message") (string i.message)
        (set_member (codes "where") (string i.where_found) end)))

unfoldable pub summary : ValidationReport → Bytes
unfolding decimal
summary r =
    decimal (pos r.accepted)
    ++ codes " test(s) accepted, "
    ++ decimal (pos r.rejected)
    ++ codes " rejected"
    ++ (if is_empty r.issues
        then []
        else codes ", " ++ decimal (pos (length r.issues)) ++ codes " issue(s) recorded")

unfoldable pub report_to_json : ValidationReport → Value
unfolding summary issue_to_json items_from set_member
report_to_json r =
    let valid = set_member (codes "valid") (boolean r.valid) end in
    let accepted = set_member (codes "accepted") (integer (pos r.accepted)) valid in
    let rejected = set_member (codes "rejected") (integer (pos r.rejected)) accepted in
    let summarised = set_member (codes "summary") (string (summary r)) rejected in
    object (set_member (codes "issues") (array (items_from issue_to_json r.issues)) summarised)
