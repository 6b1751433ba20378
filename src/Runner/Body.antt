-- ===== src/Runner/Body.antt =====
-- A test's own code and the verdict on it (`executeBody`, `describeAbandonedTest` and
-- `overrideVerdictForCancellation` of src/execution/TestRunner.cpp).
use testforge.Base.{codes, ℕ, ℤ, take, Bool, Bytes, pos, false, true, ◌++◌, if◌then◌else◌, List}
use testforge.Runner.Context.{set_fact, Context}
use testforge.Classifier.{from_unknown_exception, from_exception, Exception}
use testforge.TestResult.{TestResult}
use testforge.Decimal.{decimal}
use testforge.Status.{timed_out, timeout, error, skipped, no_failure, passed, failed}
use testforge.Json.{integer, boolean}

-- How a call of a test's code ends: it returns, it throws an exception that derives from
-- `std::exception`, or it throws anything else.
pub data Ending : Type 0 where
  returns : Ending
  throws : Exception → Ending
  throws_other : Ending

-- A `TestCase`, which is code of the test's author: what each call does to the context, and how it
-- ends. `tearDown` is `noexcept`.
pub record Hooks : Type 0 where
  pub set_up : Context → Context × Ending
  pub execute : Context → Context × Ending
  pub tear_down : Context → Context

-- The verdict; the first argument is `setUpSucceeded`.
unfoldable pub verdict : Bool → Ending → TestResult → TestResult
unfolding from_exception from_unknown_exception
verdict set_up_succeeded returns r = record r { status = passed; failure_category = no_failure }
verdict set_up_succeeded (throws e) r =
    let classification = from_exception e in
    let classified = record r {
      status = classification.status;
      failure_category = classification.category;
      error_message = classification.message;
      error_detail = classification.detail;
    } in
    let errs = record classified {
      status = error;
      error_detail = codes "failure occurred during setUp\n" ++ classified.error_detail;
    } in
    if set_up_succeeded
    then classified
    else elim classification.status [ failed ↦ errs | _ ↦ classified ]
verdict set_up_succeeded throws_other r = record r {
  status = from_unknown_exception.status;
  failure_category = from_unknown_exception.category;
  error_message = from_unknown_exception.message;
  error_detail = from_unknown_exception.detail;
}

-- The capture holds the first 200 records.
unfoldable pub captured : Context → List Bytes
captured c = take 200 c.lines

-- The context, the result and the captured lines, from what `setUp` left on.
unfoldable pub after_set_up :
    Hooks → TestResult → Context × Ending → Context × (TestResult × List Bytes)
unfolding verdict captured
after_set_up h r (c, returns) =
    let body = h.execute c in
    let down = h.tear_down body.0 in (down, (verdict true body.1 r, captured down))
after_set_up h r (c, throws e) = (c, (verdict false (throws e) r, captured c))
after_set_up h r (c, throws_other) = (c, (verdict false throws_other r, captured c))

unfoldable pub execute_body : Hooks → Context → TestResult → Context × (TestResult × List Bytes)
unfolding after_set_up
execute_body h c r = after_set_up h r (h.set_up c)

unfoldable pub describe_abandoned : ℤ → ℕ → TestResult → TestResult
unfolding set_fact decimal
describe_abandoned timeout_ms attempt r = record r {
  status = timeout;
  failure_category = timed_out;
  error_message =
      codes "test exceeded its "
      ++ decimal timeout_ms
      ++ codes "ms deadline and did not respond to cancellation";
  error_detail =
      codes
        "The test body is still running on a background thread. TestForge never forcibly terminates a thread (see docs/concurrency.md), so the thread is left to finish and is reported again at shutdown. Make the test cooperative by calling ctx.throwIfCancelled() inside its loops, or ctx.sleepFor() instead of std::this_thread::sleep_for.";
  metadata = set_fact (codes "abandoned_thread") (boolean true) (
      set_fact (codes "deadline_exceeded") (boolean true) (
        set_fact (codes "attempt") (integer (pos attempt))
          (set_fact (codes "timeout_ms") (integer timeout_ms) r.metadata)));
}

-- The verdict on a body that lost its race against the deadline.
unfoldable pub override_deadline : ℤ → TestResult → TestResult
unfolding set_fact decimal
override_deadline timeout_ms r =
    let facts =
      set_fact (codes "finished_in_grace_period") (boolean true)
        (set_fact (codes "deadline_exceeded") (boolean true) r.metadata) in
    let late = record r {
      status = timeout;
      failure_category = timed_out;
      error_message =
          codes "test exceeded its "
          ++ decimal timeout_ms
          ++ codes "ms deadline and only finished during the cancellation grace period";
      error_detail =
          codes
            "The test did not observe cancellation and ran to completion after the deadline had already passed. Add a ctx.throwIfCancelled() checkpoint, or use ctx.sleepFor() instead of std::this_thread::sleep_for, so it can stop when asked. See docs/concurrency.md.";
      metadata = facts;
    } in
    elim r.status [
      | timeout ↦ record r { status = timeout; failure_category = timed_out; metadata = facts }
      | _ ↦ late
    ]

unfoldable pub override_verdict : Bool → Bool → ℤ → Bytes → TestResult → TestResult
unfolding set_fact override_deadline
override_verdict deadline_exceeded cancelled_by_run timeout_ms reason r =
    if deadline_exceeded
    then override_deadline timeout_ms r
    else if cancelled_by_run
    then record r {
      status = skipped;
      failure_category = no_failure;
      error_message = codes "cancelled: " ++ reason;
      error_detail =
          codes
            "The run was cancelled while this test was executing, so its outcome was discarded rather than recorded as a pass or a failure.";
      metadata = set_fact (codes "run_cancelled") (boolean true) r.metadata;
    }
    else r
