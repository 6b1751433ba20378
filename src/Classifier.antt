-- ===== src/Classifier.antt =====
-- The failure classifier (src/execution/FailureClassifier.cpp): from an exception, from a message,
-- and by refinement over the facts that a test recorded.
pub mod Refine
pub mod Messages
pub mod Exceptions
use testforge.Base.{
  ltb, leb, ◌==◌, if◌then◌else◌, not, ltb→lt, lt→ltb, leb→le, ==_iff, Bool-cases, Option-cases,
  &&_iff, ||_iff, any, keep, length, get_elem?, take, drop, is_empty, length-append, length-keep-le,
  keep-append, All, All-append, All-keep, keep-All, eq_bytes, lt_bytes, Bytes, codes, eq_bytes_self,
  eq_bytes→eq, eq_bytes_iff, lt_bytes_irrefl, lt_bytes_trans, lt_bytes_tri, ◌+ℤ◌, quot, ℤ, pos,
  negsuc, pos_part, neg_part, sub_ℕ, ◌≤ℤ◌, ltb_ℤ, eqb_ℤ, +ℤ_parts, eq_of_parts, ℕ, zero, suc, ◌+◌,
  ◌-◌, ◌*◌, ◌/◌, ◌%◌, ◌^◌, ◌≤◌, ◌<◌, min, max, bit_xor, ◌≡◌, refl, sym, ap, ap₂, ◌∙◌, subst, ◌≢◌,
  ◌↔◌, ◌⊎◌, inl, inr, Bool, true, false, ◌&&◌, ◌||◌, Option, none, some, List, [], ◌∷◌, ◌++◌, map,
  append_assoc, append-nil, arith, dec_lt, ℕ_discrete,
}
use testforge.Strings.Case.{to_lower}
use testforge.Strings.Search.{contains}
use testforge.Status.{
  TestStatus, passed, failed, skipped, error, timeout, FailureCategory, no_failure,
  assertion_failure, timed_out, network_failure, environment_failure, resource_failure,
  application_failure, dependency_failure, configuration_failure, framework_error, unknown,
}
use testforge.Json.{Value, integer, double, string, find, as_int, as_string, is_number}

abbrev pub message_signals : List (Bytes × FailureCategory)
message_signals =
    (codes "connection refused", network_failure)
    ∷ (codes "connection reset", network_failure)
    ∷ (codes "could not resolve", network_failure)
    ∷ (codes "name or service not known", network_failure)
    ∷ (codes "no route to host", network_failure)
    ∷ (codes "network is unreachable", network_failure)
    ∷ (codes "broken pipe", network_failure)
    ∷ (codes "timed out", timed_out)
    ∷ (codes "timeout", timed_out)
    ∷ (codes "deadline exceeded", timed_out)
    ∷ (codes "no such file or directory", dependency_failure)
    ∷ (codes "executable not found", dependency_failure)
    ∷ (codes "command not found", dependency_failure)
    ∷ (codes "not installed", dependency_failure)
    ∷ (codes "permission denied", environment_failure)
    ∷ (codes "read-only file system", environment_failure)
    ∷ (codes "cannot allocate memory", resource_failure)
    ∷ (codes "out of memory", resource_failure)
    ∷ (codes "no space left", resource_failure)
    ∷ (codes "too many open files", resource_failure)
    ∷ (codes "internal server error", application_failure)
    ∷ (codes "bad gateway", application_failure)
    ∷ []

unfoldable pub specificity : FailureCategory → ℕ
specificity no_failure = 0
specificity unknown = 1
specificity assertion_failure = 2
specificity framework_error = 4
specificity configuration_failure = 4
specificity timed_out = 4
specificity application_failure = 3
specificity network_failure = 3
specificity dependency_failure = 3
specificity environment_failure = 3
specificity resource_failure = 3

-- The loop of `fromMessage` over the signals.
unfoldable pub first_signal : Bytes → List (Bytes × FailureCategory) → FailureCategory
unfolding contains
first_signal lowered [] = unknown
first_signal lowered ((needle, category) ∷ rest) =
    let later = first_signal lowered rest in if contains lowered needle then category else later

unfoldable pub from_message : Bytes → FailureCategory
unfolding first_signal to_lower
from_message message = first_signal (to_lower message) message_signals

-- What `fromException` finds out about an exception by `dynamic_cast`: the exceptions of TestForge
-- with their message, those of the standard library with their `typeid` name.
pub data Exception : Type 0 where
  skip_test : Bytes → Exception
  test_cancelled : Bytes → Exception
  assertion : (what detail : Bytes) → Exception
  forge_error : (what : Bytes) → FailureCategory → Exception
  bad_alloc : (what type_name : Bytes) → Exception
  std_exception : (what type_name : Bytes) → Exception

pub record Classification : Type 0 where
  pub status : TestStatus
  pub category : FailureCategory
  pub message : Bytes
  pub detail : Bytes

unfoldable pub what_of : Exception → Bytes
what_of (skip_test w) = w
what_of (test_cancelled w) = w
what_of (assertion w d) = w
what_of (forge_error w c) = w
what_of (bad_alloc w t) = w
what_of (std_exception w t) = w

-- The text before the first line break, and whether there is a break.
unfoldable pub first_line : Bytes → Bytes
first_line [] = []
first_line (c ∷ s) = let later = first_line s in if c == b'\n' then [] else c ∷ later

unfoldable pub has_break : Bytes → Bool
has_break [] = false
has_break (c ∷ s) = c == b'\n' || has_break s

-- The detail of a standard exception: the whole text, if it has several lines, and the type.
unfoldable pub with_type : Bytes → Bytes → Bytes
with_type detail type_name =
    (if is_empty detail then [] else detail ++ b'\n' ∷ []) ++ codes "exception type: " ++ type_name

unfoldable pub from_exception : Exception → Classification
unfolding from_message first_line has_break with_type what_of
from_exception e =
    let full = what_of e in
    let message = first_line full in
    let detail = if has_break full then full else [] in
    elim e [
      | skip_test w ↦ record {
        status = skipped;
        category = no_failure;
        message = message;
        detail = detail;
      }
      | test_cancelled w ↦ record {
        status = timeout;
        category = timed_out;
        message = message;
        detail = detail;
      }
      | assertion w d ↦ record {
        status = failed;
        category = assertion_failure;
        message = message;
        detail = d;
      }
      | forge_error w c ↦ record {
        status = elim c [ timed_out ↦ timeout | _ ↦ error ];
        category = c;
        message = message;
        detail = detail;
      }
      | bad_alloc w t ↦ record {
        status = error;
        category = elim (from_message message) [ unknown ↦ resource_failure | c ↦ c ];
        message = message;
        detail = with_type detail t;
      }
      | std_exception w t ↦ record {
        status = error;
        category = from_message message;
        message = message;
        detail = with_type detail t;
      }
    ]

unfoldable pub from_unknown_exception : Classification
from_unknown_exception = record {
  status = error;
  category = unknown;
  message = codes "test threw a non-std::exception object";
  detail =
      codes
        "TestForge caught an exception that does not derive from std::exception, so no diagnostic information could be extracted. Throw a std::exception subclass (or use the TF_ASSERT_* macros) to get a useful failure report.";
}

-- The lambda `promote` of `refine`, at the category so far.
unfoldable pub promote : FailureCategory → FailureCategory → FailureCategory
unfolding specificity
promote refined candidate =
    if ltb (specificity refined) (specificity candidate) then candidate else refined

-- The four pieces of evidence, one function each.
unfoldable pub by_http_status : Option Value → FailureCategory → FailureCategory
unfolding promote is_number as_int
by_http_status none refined = refined
by_http_status (some v) refined = elim (as_int v) [
  | none ↦ refined
  | some code ↦ if ltb_ℤ code (pos 500) then refined else promote refined application_failure
]

unfoldable pub by_message : Option Value → FailureCategory → FailureCategory
unfolding promote from_message
by_message (some (string text)) refined = promote refined (from_message text)
by_message _ refined = refined

unfoldable pub by_missing_dependency : Option Value → FailureCategory → FailureCategory
unfolding promote
by_missing_dependency (some (string text)) refined =
    if is_empty text then refined else promote refined dependency_failure
by_missing_dependency _ refined = refined

unfoldable pub by_error_hint : Option Value → FailureCategory → FailureCategory
unfolding by_message
by_error_hint hint unknown = by_message hint unknown
by_error_hint hint refined = refined

unfoldable pub refine : FailureCategory → Value → FailureCategory
unfolding by_http_status by_message by_missing_dependency by_error_hint find
refine base metadata = by_error_hint (find (codes "error_hint") metadata) (
    by_missing_dependency (find (codes "missing_dependency") metadata) (
      by_message (find (codes "transport_error") metadata)
        (by_http_status (find (codes "http_status") metadata) base)))

unfoldable pub is_retryable : FailureCategory → Bool
is_retryable network_failure = true
is_retryable timed_out = true
is_retryable resource_failure = true
is_retryable _ = false

unfoldable pub explain : FailureCategory → Bytes
explain no_failure = codes "No failure."
explain assertion_failure =
    codes
      "The system under test produced the wrong result. Investigate the SUT, or the expectation if the behaviour changed on purpose."
explain timed_out =
    codes
      "The test did not finish within its deadline. Look for a hung dependency, a deadlock, or a budget that is simply too tight."
explain network_failure =
    codes
      "The system under test could not be reached. Usually the service is not running, or the address or port is wrong."
explain environment_failure =
    codes
      "The machine running the test is at fault: permissions, missing paths, or a misconfigured host."
explain resource_failure =
    codes "The machine ran out of something: memory, disk, or file descriptors."
explain application_failure =
    codes
      "The system under test errored internally (5xx or a crash). Check its logs rather than the test."
explain dependency_failure =
    codes "A required binary or service is absent. Install it, or let the test skip."
explain configuration_failure =
    codes
      "TestForge was configured incorrectly. Fix the config file, flags, or environment variables."
explain framework_error = codes "A defect in TestForge itself. This should be reported as a bug."
explain unknown = codes "Could not be classified automatically. Read the logs and diagnostics."
