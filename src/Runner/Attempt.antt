-- ===== src/Runner/Attempt.antt =====
-- One execution of one test (`TestRunner::runOne`, src/execution/TestRunner.cpp).
pub mod Verdict
pub mod Conclude
pub mod Steps
pub mod Outcome
pub mod Total
use testforge.Base.{
  Option, not, codes, is_empty, List, Bool, pos_part, ltb_ℤ, pos, some, none, false, true, ◌++◌,
  ◌&&◌, ◌*◌, ◌+◌, if◌then◌else◌, ℕ, ℤ, Bytes, arith,
}
use testforge.Cancellation.{fresh, State, set_deadline, run, Operation}
use testforge.Runner.Context.{no_output, apply_context_output, set_fact, Context}
use testforge.Registry.{Registry, create}
use testforge.TestResult.{TestResult, make}
use testforge.TestCase.{qualified_name, TestMetadata}
use testforge.Status.{framework_error, no_failure, skipped, error, is_failure}
use testforge.Runner.Body.{Hooks, execute_body, describe_abandoned, override_verdict}
use testforge.Runner.Waiting.{BodyOutcome, Tick, await_bounded_body}
use testforge.Classifier.{refine}
use testforge.Json.{integer, boolean}

-- What an execution reads of the clocks and of the other threads. `run_before` is the run's source
-- as the execution checks it, `interrupts` is what `cancelAllActive` does to the test's source after
-- the last round of the wait (or while an unbounded body runs), and `run_after` is the run's source
-- as the verdict reads it. `steady_start` is the reading of the steady clock from which both the
-- deadline of the test's source and that of the wait are counted.
pub record World : Type 0 where
  pub worker : Bytes
  pub made_at : ℤ
  pub started_at : ℤ
  pub ended_at : ℤ
  pub elapsed : ℤ
  pub steady_start : ℕ
  pub ticks : ℕ → Tick
  pub ready_in_grace : Bool
  pub interrupts : List Operation
  pub run_before : State
  pub run_after : State

-- The result as it stands before anything runs.
unfoldable pub opening : World → Bytes → ℕ → TestMetadata → TestResult
unfolding make
opening w run_id attempt m = record (make w.made_at m.suite m.name error) {
  run_id = run_id;
  attempt = attempt;
  tags = m.tags;
  worker = w.worker;
  start_time = w.started_at;
}

-- The lambda `finish`.
unfoldable pub finish : World → TestResult → TestResult
finish w r = record r { end_time = w.ended_at; duration = w.elapsed }

unfoldable pub effective_timeout : ℤ → TestMetadata → ℤ
effective_timeout default_timeout_ms m =
    if ltb_ℤ (pos 0) m.timeout_ms then m.timeout_ms else default_timeout_ms

unfoldable pub disabled_result : TestMetadata → TestResult → TestResult
disabled_result m r = record r {
  status = skipped;
  failure_category = no_failure;
  error_message =
      if is_empty m.disabled_reason then codes "test is disabled" else m.disabled_reason;
}

unfoldable pub no_product : TestResult → TestResult
no_product r = record r {
  status = error;
  failure_category = framework_error;
  error_message = codes "test is registered but its factory produced nothing";
}

unfoldable pub not_run : Bytes → TestResult → TestResult
unfolding set_fact
not_run reason r = record r {
  status = skipped;
  failure_category = no_failure;
  error_message = codes "not run: " ++ reason;
  metadata = set_fact (codes "run_cancelled") (boolean true) r.metadata;
}

-- The second pass of the classifier.
unfoldable pub reclassify : TestResult → TestResult
unfolding is_failure refine
reclassify r =
    if is_failure r.status
    then record r { failure_category = refine r.failure_category r.metadata }
    else r

-- What happens to the body's result when the body has completed.
unfoldable pub conclude :
    World → ℤ → ℕ → Bool → State → Context × (TestResult × List Bytes) → TestResult
unfolding override_verdict apply_context_output reclassify set_fact
conclude w timeout_ms attempt deadline_exceeded source (context, (result, logs)) =
    let read = record result { logs = logs; worker = w.worker; attempt = attempt } in
    let cancelled_by_run = source.cancelled && not deadline_exceeded in
    let judged =
      override_verdict deadline_exceeded cancelled_by_run timeout_ms w.run_after.reason read in
    let classified = reclassify (apply_context_output context judged) in
    record classified {
      metadata =
          set_fact (codes "attempt") (integer (pos attempt))
            (set_fact (codes "timeout_ms") (integer timeout_ms) classified.metadata);
    }

-- A bounded body that was waited for.
unfoldable pub bounded_result :
    World → Hooks → ℤ → ℕ → TestResult → BodyOutcome → State → TestResult
unfolding describe_abandoned conclude execute_body run
bounded_result w hooks timeout_ms attempt opened o source =
    if o.completed
    then conclude w timeout_ms attempt o.deadline_exceeded (run w.interrupts source)
        (execute_body hooks no_output opened)
    else describe_abandoned timeout_ms attempt opened

unfoldable pub deadline_of : World → ℤ → ℕ
deadline_of w timeout_ms = w.steady_start + pos_part timeout_ms * 1000000

-- The execution of a test that was made: its result and the orphans.
unfoldable pub run_made :
    ℕ
    → World
    → Hooks
    → ℤ
    → ℕ
    → TestMetadata
    → TestResult
    → List Bytes
    → Option (TestResult × List Bytes)
unfolding await_bounded_body bounded_result conclude execute_body run deadline_of set_deadline
run_made fuel w hooks timeout_ms attempt m opened orphans =
    if ltb_ℤ (pos 0) timeout_ms
    then elim (await_bounded_body fuel w.ticks (deadline_of w timeout_ms) w.ready_in_grace
        timeout_ms (qualified_name m) orphans (set_deadline (deadline_of w timeout_ms) fresh)) [
          | none ↦ none
          | some (o, (source, after)) ↦
              some (bounded_result w hooks timeout_ms attempt opened o source, after)
        ]
    else some (
      conclude w timeout_ms attempt false (run w.interrupts fresh)
          (execute_body hooks no_output opened),
      orphans,
    )

-- `runOne`, with the fuel of the wait; `none` means that the fuel ran out.
unfoldable pub run_one :
    ℕ
    → World
    → Registry Hooks
    → ℤ
    → Bytes
    → ℕ
    → TestMetadata
    → List Bytes
    → Option (TestResult × List Bytes)
unfolding opening disabled_result no_product not_run run_made effective_timeout finish create
run_one fuel w registry default_timeout_ms run_id attempt m orphans =
    let opened = opening w run_id attempt m in
    if not m.enabled
    then some (finish w (disabled_result m opened), orphans)
    else elim (create (qualified_name m) registry) [
      | none ↦ some (finish w (no_product opened), orphans)
      | some hooks ↦
          if w.run_before.cancelled
          then some (finish w (not_run w.run_before.reason opened), orphans)
          else elim (run_made fuel w hooks (effective_timeout default_timeout_ms m) attempt m opened
              orphans) [ none ↦ none | some (result, after) ↦ some (finish w result, after) ]
    ]
