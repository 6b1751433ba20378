-- ===== src/Examples/Running.antt =====
-- Tests of the runner.
use testforge.Runner.Retries.FailFast.{run_sequentially-recorded, result_of, recorded}
use testforge.Base.{
  map, zero, suc, Option, ltb_ℤ, codes, pos, refl, some, none, [], false, true, ◌∷◌, ◌≡◌, ◌≤◌, ◌*◌,
  ℕ, List, Bytes, arith,
}
use testforge.Examples.{login}
use testforge.Cancellation.{cancels, fresh, State}
use testforge.Registry.{Registry, create}
use testforge.Runner.Body.{returns, Hooks}
use testforge.Runner.Attempt.{run_one, deadline_of, effective_timeout, World}
use testforge.TestCase.{TestMetadata, qualified_name}
use testforge.TestResult.{any_failure, make, TestResult}
use testforge.Runner.Waiting.{adopt, await_bounded_body, BodyOutcome}
use testforge.Runner.Retries.{run_start, attempts, run_sequentially, with_retries, RunOptions}
use testforge.Runner.Retries.Attempts.{with_retries-IsRetried, IsRetried}
use testforge.Status.{network_failure, error, failed, timed_out, passed, timeout}
use testforge.Runner.Attempt.Verdict.{IsVerdict}
use testforge.Runner.Waiting.Outcome.{await_bounded_body-Learns, Learns}
use testforge.Json.{Value}
use testforge.Runner.Attempt.Outcome.{run_one-deadline}
use testforge.Runner.Attempt.Total.{run_one-IsVerdict}

-- A body that notes something and passes, and one that throws.
abbrev passing : Hooks
passing = record {
  set_up = λ c. (c, returns);
  execute = λ c. (record c { notes = codes "done" ∷ [] }, returns);
  tear_down = λ c. c;
}

abbrev hooks_registry : Registry Hooks
hooks_registry =
    (codes "auth.login", record { metadata = login; factory = some (some passing) }) ∷ []

-- The clock moves by 30 ms a round, and the body never finishes in time.
abbrev slow_world : World
slow_world = record {
  worker = codes "main";
  made_at = pos 1;
  started_at = pos 1;
  ended_at = pos 90;
  elapsed = pos 89;
  steady_start = 0;
  ticks = λ i. record { now = i * 30000000; ready = false; run_source = fresh; meanwhile = [] };
  ready_in_grace = false;
  interrupts = cancels (codes "Ctrl-C") ∷ [];
  run_before = fresh;
  run_after = record { cancelled = true; reason = codes "Ctrl-C"; deadline = none };
}

login-create : create (qualified_name login) hooks_registry ≡ some passing
unfolding create qualified_name
login-create = refl

login-bounded : ltb_ℤ (pos 0) (effective_timeout (pos 50) login) ≡ true
unfolding effective_timeout
login-bounded = refl

login-unbounded : ltb_ℤ (pos 0) (effective_timeout (pos 0) login) ≡ false
unfolding effective_timeout
login-unbounded = refl

login-late : deadline_of slow_world (effective_timeout (pos 50) login) ≤ (slow_world.ticks 2).now
unfolding effective_timeout deadline_of
login-late = omega arith

abbrev the_run : Bytes
the_run = codes "run"

abbrev no_orphans : List Bytes
no_orphans = []

run_one-deadline_example :
    (r : TestResult) × ((run_one 3 slow_world hooks_registry (pos 50) the_run 1 login no_orphans
        ≡ some (r, adopt (qualified_name login) no_orphans))
      × ((r.status ≡ timeout) × (r.failure_category ≡ timed_out)))
run_one-deadline_example =
    run_one-deadline 2 slow_world hooks_registry (pos 50) the_run 1 login no_orphans passing refl
      login-create refl login-bounded login-late (λ j early. refl)

run_one-IsVerdict_example :
    (r : TestResult) × ((after : List Bytes) × ((run_one 3 slow_world hooks_registry
            (pos 50)
            the_run
            1
            login
            no_orphans
          ≡ some (r, after))
        × IsVerdict r.status r.failure_category))
run_one-IsVerdict_example =
    run_one-IsVerdict 2 slow_world hooks_registry (pos 50) the_run 1 login no_orphans login-late

await_bounded_body-Learns_example :
    (o : BodyOutcome) × ((after : State × List Bytes) × ((await_bounded_body 3 slow_world.ticks
            50000000 true
            (pos 50)
            the_run
            no_orphans
            fresh
          ≡ some (o, after))
        × Learns slow_world.ticks 50000000 true the_run no_orphans o after.0 after.1))
await_bounded_body-Learns_example =
    await_bounded_body-Learns slow_world.ticks 50000000 2 true (pos 50) the_run no_orphans fresh
      (omega arith)

abbrev options : RunOptions
options = record { fail_fast = true; retry_failed = pos 2 }

-- A network failure on the first attempt, a pass on the second.
abbrev flaky : ℕ → TestResult
flaky (suc zero) = record (make (pos 1) (codes "auth") (codes "login") error) {
  failure_category = network_failure;
}
flaky n = make (pos 2) (codes "auth") (codes "login") passed

flaky-retried : (with_retries options flaky).0.flaky_candidate ≡ true
unfolding with_retries attempts make
flaky-retried = refl

with_retries-IsRetried_example :
    (k : ℕ) × ((b : ℕ) × IsRetried flaky 1 2 k b (with_retries options flaky))
with_retries-IsRetried_example = with_retries-IsRetried options flaky

-- The disabled test fails.
abbrev outcome : State → TestMetadata → ℕ → TestResult
outcome source m attempt =
    make (pos 1) m.suite m.name (elim m.enabled [ true ↦ passed | false ↦ failed ])

abbrev broken : TestMetadata
broken = record login { enabled = false }

abbrev selection : List TestMetadata
selection = login ∷ broken ∷ login ∷ []

abbrev nothing_found : TestResult → Option Value
nothing_found r = none

run_sequentially-recorded_example :
    let after = run_sequentially nothing_found outcome options selection (run_start fresh) in
    (after.results ≡ recorded true (map (result_of nothing_found outcome options fresh) selection))
    × (after.stop_scheduling
        ≡ any_failure
            (recorded true (map (result_of nothing_found outcome options fresh) selection)))
run_sequentially-recorded_example =
    run_sequentially-recorded nothing_found outcome options selection fresh

-- Every test meets a clock that stands at its deadline.
abbrev late_world : TestMetadata → ℕ → World
late_world m n = record slow_world {
  ticks = λ i. record {
    now = deadline_of slow_world (effective_timeout (pos 50) m);
    ready = false;
    run_source = fresh;
    meanwhile = [];
  };
}
