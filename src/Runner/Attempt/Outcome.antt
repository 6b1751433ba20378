-- ===== src/Runner/Attempt/Outcome.antt =====
-- An execution with a deadline, and one without (`TestRunner::runOne`,
-- src/execution/TestRunner.cpp).
use testforge.Base.{
  ap, not, Bool, ltb_ℤ, List, ℤ, Bytes, pos, suc, refl, some, none, false, true, ◌||◌, ◌∙◌, ◌≡◌,
  ◌<◌, ◌≤◌, if◌then◌else◌, Option, ℕ,
}
use testforge.Cancellation.{run-first_reason, set_deadline, fresh, first_reason, run}
use testforge.Runner.Context.{no_output}
use testforge.Registry.{Registry, create}
use testforge.Runner.Attempt.{
  bounded_result, conclude, run_one, deadline_of, effective_timeout, World, opening, finish,
}
use testforge.TestResult.{TestResult}
use testforge.Runner.Body.{execute_body, Hooks}
use testforge.Status.{timed_out, timeout, no_failure, skipped, TestStatus}
use testforge.TestCase.{qualified_name, TestMetadata}
use testforge.Runner.Waiting.{adopt}
use testforge.Runner.Waiting.Outcome.{await_bounded_body-Learns, Ends}
use testforge.Runner.Attempt.Conclude.{conclude-cancelled, conclude-kept}
use testforge.Runner.Attempt.Verdict.{execute_body-IsVerdict}
use testforge.Runner.Attempt.Steps.{
  bounded_result-exceeded, run_made-unbounded, run_made-bounded, run_one-made,
}

-- A test that is enabled, made and bounded, that starts in a run that is not cancelled, and whose body
-- does not finish in a round before its deadline: once the clock has reached the deadline, the
-- execution returns, and its verdict is a timeout of category timeout, whatever the body did, threw
-- or recorded, before or in the grace period. The test is left as an orphan exactly if it does not
-- finish in the grace period.
pub run_one-deadline :
    (rounds : ℕ) (w : World) (registry : Registry Hooks) (default_timeout_ms : ℤ) (run_id : Bytes)
    (attempt : ℕ) (m : TestMetadata) (orphans : List Bytes) (hooks : Hooks)
    → m.enabled ≡ true
    → create (qualified_name m) registry ≡ some hooks
    → w.run_before.cancelled ≡ false
    → ltb_ℤ (pos 0) (effective_timeout default_timeout_ms m) ≡ true
    → deadline_of w (effective_timeout default_timeout_ms m) ≤ (w.ticks rounds).now
    → ((j : ℕ)
        → (w.ticks j).now < deadline_of w (effective_timeout default_timeout_ms m)
        → (w.ticks j).ready ≡ false)
    → (r : TestResult) × ((run_one
            (suc rounds)
            w
            registry
            default_timeout_ms
            run_id
            attempt
            m
            orphans
          ≡ some (r, (if w.ready_in_grace then orphans else adopt (qualified_name m) orphans)))
        × ((r.status ≡ timeout) × (r.failure_category ≡ timed_out)))
unfolding finish
run_one-deadline rounds w registry d run_id attempt m orphans hooks on made live bounded late runs =
    let t = effective_timeout d m in
    let opened = opening w run_id attempt m in
    let (o, ((source, after), (e, (ends, (done, (stops, left)))))) =
      await_bounded_body-Learns w.ticks (deadline_of w t) rounds w.ready_in_grace t
        (qualified_name m) orphans (set_deadline (deadline_of w t) fresh) late in
    let exceeded : o.deadline_exceeded ≡ true = not_in_time o.deadline_exceeded ends in
    let result = bounded_result w hooks t attempt opened o source in
    (
      finish w result,
      (
        run_one-made (suc rounds) w registry d run_id attempt m orphans hooks (result, after) on
              made live
              (run_made-bounded (suc rounds) w hooks t attempt m opened orphans after o source
                bounded e)
            ∙ ap (λ x. some (finish w result, x))
                (left
                  ∙ ap (λ c. if c then orphans else adopt (qualified_name m) orphans)
                      (done ∙ ap (λ x. not x || w.ready_in_grace) exceeded)),
        bounded_result-exceeded w hooks t attempt opened o source exceeded,
      ),
    )
  where
    not_in_time :
        (exceeded : Bool)
        → Ends w.ticks (deadline_of w (effective_timeout d m)) 0 (not exceeded)
        → exceeded ≡ true
    not_in_time true h = refl
    not_in_time false (j, (from, (r, (early, ready)))) = cc (runs j early)

-- The verdict on a body that ran to its end with the given status: a skip if there is a reason for a
-- cancellation, and else the body's.
abbrev pub Judges : Option Bytes → TestResult → TestStatus → Type 0
Judges (some reason) r s = (r.status ≡ skipped) × (r.failure_category ≡ no_failure)
Judges none r s = r.status ≡ s

-- A test without a time limit, that is enabled, made and starts in a run that is not cancelled, runs
-- inline: the execution returns with any fuel and leaves the orphans as they are. If another thread
-- cancels the test's source in the meantime, the test counts as skipped, whatever its body concluded;
-- otherwise its status is the one that the body's end gives.
pub run_one-unbounded :
    (fuel : ℕ) (w : World) (registry : Registry Hooks) (default_timeout_ms : ℤ) (run_id : Bytes)
    (attempt : ℕ) (m : TestMetadata) (orphans : List Bytes) (hooks : Hooks)
    → m.enabled ≡ true
    → create (qualified_name m) registry ≡ some hooks
    → w.run_before.cancelled ≡ false
    → ltb_ℤ (pos 0) (effective_timeout default_timeout_ms m) ≡ false
    → (r : TestResult) × ((run_one fuel w registry default_timeout_ms run_id attempt m orphans
          ≡ some (r, orphans))
        × Judges
            (first_reason w.interrupts)
            r
            (execute_body hooks no_output (opening w run_id attempt m)).1.0.status)
unfolding finish
run_one-unbounded fuel w registry d run_id attempt m orphans hooks on made live open' =
    let t = effective_timeout d m in
    let opened = opening w run_id attempt m in
    let source = run w.interrupts fresh in
    let body = execute_body hooks no_output opened in
    let result = conclude w t attempt false source body in
    (
      finish w result,
      (
        run_one-made fuel w registry d run_id attempt m orphans hooks (result, orphans) on made live
            (run_made-unbounded fuel w hooks t attempt m opened orphans open'),
        judge (first_reason w.interrupts) (run-first_reason w.interrupts).0,
      ),
    )
  where
    judge :
        (first : Option Bytes)
        → (run w.interrupts fresh).cancelled ≡ elim first [ none ↦ false | some r ↦ true ]
        → Judges first
            (finish w (
              conclude w
                (effective_timeout d m)
                attempt
                false
                (run w.interrupts fresh)
                (execute_body hooks no_output (opening w run_id attempt m))))
            (execute_body hooks no_output (opening w run_id attempt m)).1.0.status
    judge none h =
        (conclude-kept w (effective_timeout d m) attempt (run w.interrupts fresh)
          (execute_body hooks no_output (opening w run_id attempt m)) h
          (execute_body-IsVerdict hooks no_output (opening w run_id attempt m))).0
    judge (some reason) h =
        conclude-cancelled w (effective_timeout d m) attempt (run w.interrupts fresh)
          (execute_body hooks no_output (opening w run_id attempt m)) h
