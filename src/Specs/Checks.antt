-- ===== src/Specs/Checks.antt =====
-- The checks that the validator makes of one generated test, in the order of validateOne
-- (include/testforge/ai/SpecValidator.hpp, src/ai/SpecValidator.cpp).
use testforge.Base.{
  Option, negsuc, ◌*◌, ◌+◌, is_empty, length, ltb, not, ltb_ℤ, codes, eq_bytes, ℕ, pos, some, none,
  [], false, true, ◌++◌, ◌∷◌, ◌||◌, if◌then◌else◌, any, List, Bool, Bytes, ℤ,
}
use testforge.Specs.Safety.{has_control_character, unsafe_endpoint, unsafe_name}
use testforge.Strings.Pieces.{join}
use testforge.Decimal.{decimal}
use testforge.Strings.Case.{to_lower}
use testforge.Json.Access.{count_members}
use testforge.Json.{array, int_or, is_number, end, member, null, Members, string, Value}
use testforge.Url.Policy.{reject_raw, UrlPolicy}
use testforge.Specs.{status_code_in, response_time_under, Kind, SpecAssertion, TestSpec}
use testforge.Url.{join_url}
use testforge.Json.Text.Printer.{dump}
use testforge.Json.Text.Number.{CLibrary}

pub record ValidationIssue : Type 0 where
  pub where_found : Bytes
  pub message : Bytes
  pub fatal : Bool

pub record ValidationReport : Type 0 where
  pub valid : Bool
  pub accepted : ℕ
  pub rejected : ℕ
  pub issues : List ValidationIssue

-- The fields of the validator; of the configuration it reads the number of tests.
pub record SpecValidator : Type 0 where
  pub max_generated_tests : ℤ
  pub policy : UrlPolicy
  pub base_url : Bytes

abbrev pub fatal_issue : Bytes → Bytes → ValidationIssue
fatal_issue place message = record { where_found = place; message = message; fatal = true }

-- `if (test) { add(place, message); }`
unfoldable pub add_if : Bool → Bytes → Bytes → List ValidationIssue
add_if test place message = if test then fatal_issue place message ∷ [] else []

-- An issue for the reason that a test of its own gave.
unfoldable pub add_reason : Bytes → Option Bytes → List ValidationIssue
add_reason place none = []
add_reason place (some reason) = fatal_issue place reason ∷ []

abbrev pub allowed_methods : List Bytes
allowed_methods =
    codes "GET"
    ∷ codes "POST"
    ∷ codes "PUT"
    ∷ codes "PATCH"
    ∷ codes "DELETE"
    ∷ codes "HEAD"
    ∷ codes "OPTIONS"
    ∷ []

abbrev pub forbidden_headers : List Bytes
forbidden_headers =
    codes "authorization"
    ∷ codes "cookie"
    ∷ codes "set-cookie"
    ∷ codes "proxy-authorization"
    ∷ codes "host"
    ∷ codes "x-forwarded-for"
    ∷ codes "x-forwarded-host"
    ∷ codes "x-real-ip"
    ∷ codes "content-length"
    ∷ codes "transfer-encoding"
    ∷ codes "connection"
    ∷ codes "upgrade"
    ∷ []

-- `std::find` over a vector of strings.
unfoldable pub is_one_of : Bytes → List Bytes → Bool
unfolding any eq_bytes
is_one_of text texts = any (λ t. eq_bytes t text) texts

unfoldable pub check_name : Bytes → TestSpec → List ValidationIssue
unfolding add_reason unsafe_name
check_name prefix spec = add_reason (prefix ++ codes ".name") (unsafe_name spec.name)

unfoldable pub check_method : Bytes → TestSpec → List ValidationIssue
unfolding add_if is_one_of join
check_method prefix spec =
    add_if (not (is_one_of spec.method allowed_methods)) (prefix ++ codes ".method") (
      codes "method '"
      ++ spec.method
      ++ codes "' is not allowed (allowed: "
      ++ join allowed_methods (codes ", ")
      ++ codes ")")

-- Why what the endpoint was resolved to may not be requested.
unfoldable pub judge : SpecValidator → Option Bytes → Option Bytes
unfolding reject_raw
judge v none = some (
    codes "endpoint could not be resolved against the configured base URL '"
    ++ v.base_url
    ++ codes "'")
judge v (some resolved) =
    let rejection = reject_raw v.policy resolved in
    if is_empty rejection then none else some (codes "resolved URL is not permitted: " ++ rejection)

unfoldable pub unreachable : SpecValidator → Bytes → Option Bytes
unfolding join_url judge
unreachable v endpoint = judge v (join_url v.base_url endpoint)

unfoldable pub check_endpoint : SpecValidator → Bytes → TestSpec → List ValidationIssue
unfolding add_reason unsafe_endpoint unreachable
check_endpoint v prefix spec =
    let reason = elim (unsafe_endpoint spec.endpoint) as (λ _. Option Bytes) [
      | some reason ↦ some reason
      | none ↦ unreachable v spec.endpoint
    ] in
    add_reason (prefix ++ codes ".endpoint") reason

unfoldable pub bad_status : ℤ → Bool
bad_status n = ltb_ℤ n (pos 100) || ltb_ℤ (pos 599) n

unfoldable pub check_acceptable : Bytes → List ℤ → List ValidationIssue
unfolding add_if bad_status decimal
check_acceptable prefix [] = []
check_acceptable prefix (n ∷ ns) =
    add_if (bad_status n) (prefix ++ codes ".acceptable_statuses")
      (codes "status " ++ decimal n ++ codes " is outside 100-599")
    ++ check_acceptable prefix ns

unfoldable pub check_statuses : Bytes → TestSpec → List ValidationIssue
unfolding add_if bad_status check_acceptable decimal
check_statuses prefix spec =
    add_if (bad_status spec.expected_status) (prefix ++ codes ".expected_status")
      (codes "expected status " ++ decimal spec.expected_status ++ codes " is outside 100-599")
    ++ check_acceptable prefix spec.acceptable_statuses

unfoldable pub bad_budget : ℤ → Bool
bad_budget n = ltb_ℤ n (pos 0) || ltb_ℤ (pos 600_000) n

unfoldable pub check_budget : Bytes → TestSpec → List ValidationIssue
unfolding add_if bad_budget
check_budget prefix spec =
    add_if (bad_budget spec.max_response_time_ms) (prefix ++ codes ".max_response_time_ms")
      (codes "latency budget must be between 0 and 600000 ms")

-- The two checks of a header's value, where that is a text.
unfoldable pub check_value : Bytes → Bytes → Value → List ValidationIssue
unfolding add_if has_control_character
check_value prefix key (string value) =
    add_if (has_control_character value) (prefix ++ codes ".headers")
      (codes "value of header '" ++ key ++ codes "' contains a control character")
    ++ add_if (ltb 1024 (length value)) (prefix ++ codes ".headers")
        (codes "value of header '" ++ key ++ codes "' is too long")
check_value prefix key _ = []

unfoldable pub check_each_header : Bytes → Members → List ValidationIssue
unfolding add_if is_one_of to_lower has_control_character check_value
check_each_header prefix end = []
check_each_header prefix (member key value ms) =
    add_if (is_one_of (to_lower key) forbidden_headers) (prefix ++ codes ".headers") (
      codes "header '"
      ++ key
      ++ codes
          "' may not be set by a generated test; credentials and routing headers come from configuration")
    ++ (add_if (has_control_character key) (prefix ++ codes ".headers")
          (codes "header name contains a control character")
        ++ (check_value prefix key value ++ check_each_header prefix ms))

unfoldable pub check_headers : Bytes → TestSpec → List ValidationIssue
unfolding add_if count_members check_each_header decimal
check_headers prefix spec =
    add_if (ltb 16 (count_members spec.headers)) (prefix ++ codes ".headers")
      (codes "more than " ++ decimal (pos 16) ++ codes " headers")
    ++ check_each_header prefix spec.headers

unfoldable pub is_null : Value → Bool
is_null null = true
is_null _ = false

-- A body is written out by `dump`; a body where the method should have none is no fatal issue.
unfoldable pub check_body : CLibrary → Bytes → TestSpec → List ValidationIssue
unfolding add_if is_null dump is_one_of decimal
check_body libc prefix spec =
    if is_null spec.body
    then []
    else add_if (ltb (64 * 1024) (length (dump libc (negsuc 0) spec.body)))
        (prefix ++ codes ".body")
        (codes "request body exceeds " ++ decimal (pos (64 * 1024)) ++ codes " bytes")
      ++ (if is_one_of spec.method (codes "GET" ∷ codes "HEAD" ∷ [])
          then record {
            where_found = prefix ++ codes ".body";
            message = codes "a " ++ spec.method ++ codes " request should not carry a body";
            fatal = false;
          }
            ∷ []
          else [])

-- What the kind of an assertion asks of the expected value.
unfoldable pub bad_expected : Kind → Value → Option Bytes
unfolding is_number int_or
bad_expected response_time_under expected =
    if not (is_number expected) || not (ltb_ℤ (pos 0) (int_or (pos 0) expected))
    then some (codes "response_time_under_ms requires a positive number")
    else none
bad_expected status_code_in (array xs) = none
bad_expected status_code_in _ = some (codes "status_code_in requires an array of status codes")
bad_expected _ _ = none

unfoldable pub check_assertion : Bytes → SpecAssertion → List ValidationIssue
unfolding add_reason add_if has_control_character bad_expected
check_assertion place a =
    add_if (has_control_character a.target) place
      (codes "assertion target contains a control character")
    ++ (add_if (ltb 200 (length a.target)) place (codes "assertion target is too long")
        ++ add_reason place (bad_expected a.kind a.expected))

unfoldable pub check_each_assertion : Bytes → ℕ → List SpecAssertion → List ValidationIssue
unfolding check_assertion decimal
check_each_assertion prefix i [] = []
check_each_assertion prefix i (a ∷ rest) =
    check_assertion (prefix ++ codes ".assertions[" ++ decimal (pos i) ++ codes "]") a
    ++ check_each_assertion prefix (i + 1) rest

unfoldable pub check_assertions : Bytes → TestSpec → List ValidationIssue
unfolding add_if check_each_assertion decimal
check_assertions prefix spec =
    add_if (ltb 20 (length spec.assertions)) (prefix ++ codes ".assertions")
      (codes "more than " ++ decimal (pos 20) ++ codes " assertions")
    ++ check_each_assertion prefix 0 spec.assertions

unfoldable pub validate_one : CLibrary → SpecValidator → TestSpec → ℕ → List ValidationIssue
unfolding check_name check_method check_endpoint check_statuses check_budget check_headers
    check_body check_assertions decimal
validate_one libc v spec index =
    let prefix = codes "tests[" ++ decimal (pos index) ++ codes "]" in
    check_name prefix spec
    ++ (check_method prefix spec
        ++ (check_endpoint v prefix spec
            ++ (check_statuses prefix spec
                ++ (check_budget prefix spec
                    ++ (check_headers prefix spec
                        ++ (check_body libc prefix spec ++ check_assertions prefix spec))))))
