-- ===== src/Runner/Retries.antt =====
-- The retries of a test and a run with one worker (`executeWithRetries`, `handleResult` and the
-- sequential path of `TestRunner::run`, src/execution/TestRunner.cpp).
--
-- What `runOne` returns for a test, at an attempt, while the run's source is in a state, is a
-- parameter; so are the diagnostics that are collected for a failure. Notifications of observers, log
-- output and the writes of the repository are not modelled.
pub mod Attempts
pub mod FailFast
use testforge.Base.{
  some, none, Option, not, codes, pos_part, ltb, List, ℤ, suc, zero, [], true, ◌++◌, ◌∷◌, ◌&&◌,
  if◌then◌else◌, Bytes, ℕ, false, Bool, arith,
}
use testforge.Cancellation.{cancel, State}
use testforge.Status.{is_failure}
use testforge.TestResult.{result_name, TestResult}
use testforge.Sorting.{sort_by}
use testforge.Classifier.{is_retryable}
use testforge.TestCase.{TestMetadata}
use testforge.Json.{Value}

-- The options that the loop and the handler read.
pub record RunOptions : Type 0 where
  pub fail_fast : Bool
  pub retry_failed : ℤ

-- `stopScheduling`, the run's source, the results, and the failed attempts that a repository saves
-- on the way.
pub record RunState : Type 0 where
  pub stop_scheduling : Bool
  pub run_source : State
  pub results : List TestResult
  pub saved : List TestResult

abbrev pub run_start : State → RunState
run_start source = record { stop_scheduling = false; run_source = source; results = []; saved = [] }

-- A retry that ended without a failure is flagged.
unfoldable pub flag_flaky : ℕ → TestResult → TestResult
unfolding is_failure
flag_flaky attempt r =
    if not (is_failure r.status) && ltb 1 attempt then record r { flaky_candidate = true } else r

-- The loop over the attempts, with `left` attempts behind the present one: the last result, and the
-- failed results before it, which the repository saves where there is one and the options ask for it.
unfoldable pub attempts : (ℕ → TestResult) → ℕ → ℕ → TestResult × List TestResult
unfolding is_failure is_retryable flag_flaky
attempts outcome attempt zero = (flag_flaky attempt (outcome attempt), [])
attempts outcome attempt (suc left) =
    let r = outcome attempt in
    let later = attempts outcome (suc attempt) left in
    if not (is_failure r.status)
    then (flag_flaky attempt r, [])
    else if not (is_retryable r.failure_category)
    then (r, [])
    else (later.0, r ∷ later.1)

-- `1 + std::max(0, retryFailed)` attempts, the first of which is number 1.
unfoldable pub with_retries : RunOptions → (ℕ → TestResult) → TestResult × List TestResult
unfolding attempts
with_retries o outcome = attempts outcome 1 (pos_part o.retry_failed)

-- `diagnose` is what the collector finds at a failure; `none` where there is no collector or the
-- options ask for no diagnostics.
module _ (diagnose : TestResult → Option Value) where
  unfoldable pub diagnosed : TestResult → TestResult
  unfolding is_failure
  diagnosed result =
      if is_failure result.status
      then elim (diagnose result) [ none ↦ result | some d ↦ record result { diagnostics = d } ]
      else result

  unfoldable pub handle_result : RunOptions → TestResult → RunState → RunState
  unfolding is_failure cancel result_name diagnosed
  handle_result o result s =
      let r = diagnosed result in
      let kept = record s { results = s.results ++ r ∷ [] } in
      let stopped = record kept {
        stop_scheduling = true;
        run_source = cancel (codes "fail-fast: " ++ result_name r ++ codes " failed") s.run_source;
      } in
      if o.fail_fast && is_failure r.status then stopped else kept

  module _ (outcome : State → TestMetadata → ℕ → TestResult) where
    unfoldable pub execute_with_retries : RunOptions → TestMetadata → RunState → RunState
    unfolding with_retries handle_result
    execute_with_retries o m s =
        let ended = with_retries o (outcome s.run_source m) in
        if s.stop_scheduling
        then s
        else handle_result o ended.0 (record s { saved = s.saved ++ ended.1 })

    unfoldable pub run_sequentially : RunOptions → List TestMetadata → RunState → RunState
    unfolding execute_with_retries
    run_sequentially o [] s = s
    run_sequentially o (m ∷ ms) s = run_sequentially o ms (execute_with_retries o m s)

-- How a run ends: the results in the order of their names, and the reason for which it was cut
-- short.
unfoldable pub run_results : RunState → List TestResult
unfolding sort_by result_name
run_results s = sort_by result_name s.results

unfoldable pub cancellation_reason : RunState → Bytes
cancellation_reason s = if s.run_source.cancelled then s.run_source.reason else []
