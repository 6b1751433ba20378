-- ===== src/Runner/Whole.antt =====
-- A run with one worker whose executions are those of `runOne` (src/execution/TestRunner.cpp), and its
-- exit code (src/core/TestResult.cpp).
use testforge.Base.{Bytes, ℤ, ℕ, some, none, []}
use testforge.Cancellation.{State}
use testforge.Runner.Attempt.{World, run_one, opening}
use testforge.TestResult.{TestResult}
use testforge.Runner.Attempt.Verdict.{IsVerdict}
use testforge.TestCase.{TestMetadata}
use testforge.Registry.{Registry}
use testforge.Runner.Body.{Hooks}

-- What `runOne` returns to the loop over the attempts: `worlds` gives what each execution meets, but
-- for the run's source, which is the present one.
unfoldable pub outcome_in :
    ℕ
    → (TestMetadata → ℕ → World)
    → Registry Hooks
    → ℤ
    → Bytes
    → State
    → TestMetadata
    → ℕ
    → TestResult
unfolding run_one opening
outcome_in fuel worlds registry default_timeout_ms run_id source m attempt =
    let w = record (worlds m attempt) { run_before = source } in
    elim (run_one fuel w registry default_timeout_ms run_id attempt m []) [
      | none ↦ opening w run_id attempt m
      | some out ↦ out.0
    ]

abbrev pub HasVerdict : TestResult → Type 0
HasVerdict r = IsVerdict r.status r.failure_category
