-- ===== src/Runner/Attempt/Total.antt =====
-- An execution in any circumstances (`TestRunner::runOne`, src/execution/TestRunner.cpp).
use testforge.Base.{
  Option-cases, Bool-cases, ltb_ℤ, List, Bytes, ℤ, ℕ, pos, suc, inr, inl, refl, some, false, true,
  ◌≡◌, ◌≤◌,
}
use testforge.Cancellation.{fresh, set_deadline, run}
use testforge.Runner.Context.{no_output}
use testforge.Registry.{Registry, create}
use testforge.Runner.Attempt.{
  conclude, bounded_result, effective_timeout, deadline_of, World, run_one, not_run, no_product,
  disabled_result, opening, finish,
}
use testforge.Runner.Body.{execute_body, Hooks}
use testforge.TestCase.{qualified_name, TestMetadata}
use testforge.TestResult.{TestResult}
use testforge.Runner.Attempt.Verdict.{execute_body-IsVerdict, IsVerdict}
use testforge.Runner.Waiting.Outcome.{await_bounded_body-Learns}
use testforge.Runner.Attempt.Steps.{
  run_made-unbounded, bounded_result-IsVerdict, run_made-bounded, run_one-made,
}
use testforge.Runner.Attempt.Conclude.{conclude-IsVerdict}

-- Once the clock has reached the deadline, an execution of any test returns, in any circumstances: its
-- status and its category agree, so that a test that passed or was skipped has no failure category, a
-- timeout has that of a timeout, and a failed assertion has one that is at least as specific.
pub run_one-IsVerdict :
    (rounds : ℕ) (w : World) (registry : Registry Hooks) (default_timeout_ms : ℤ) (run_id : Bytes)
    (attempt : ℕ) (m : TestMetadata) (orphans : List Bytes)
    → deadline_of w (effective_timeout default_timeout_ms m) ≤ (w.ticks rounds).now
    → (r : TestResult) × ((after : List Bytes) × ((run_one
              (suc rounds)
              w
              registry
              default_timeout_ms
              run_id
              attempt
              m
              orphans
            ≡ some (r, after))
          × IsVerdict r.status r.failure_category))
unfolding finish disabled_result no_product not_run opening run_one
run_one-IsVerdict rounds w registry d run_id attempt m orphans late = elim (Bool-cases m.enabled) [
  | inr off ↦ (
    finish w (disabled_result m (opening w run_id attempt m)),
    (orphans, (rw (off, run_one) refl, refl)),
  )
  | inl on ↦ elim (Option-cases (create (qualified_name m) registry)) [
    | inl nothing ↦ (
      finish w (no_product (opening w run_id attempt m)),
      (orphans, (rw (on, nothing, run_one) refl, tt)),
    )
    | inr (hooks, made) ↦ elim (Bool-cases w.run_before.cancelled) [
      | inl down ↦ (
        finish w (not_run w.run_before.reason (opening w run_id attempt m)),
        (orphans, (rw (on, made, down, run_one) refl, refl)),
      )
      | inr live ↦ elim (Bool-cases (ltb_ℤ (pos 0) (effective_timeout d m))) [
        | inl bounded ↦ waited hooks on made live bounded
        | inr open' ↦
            let result =
              conclude w (effective_timeout d m) attempt false (run w.interrupts fresh)
                (execute_body hooks no_output (opening w run_id attempt m)) in
            (
              finish w result,
              (
                orphans,
                (
                  run_one-made (suc rounds) w registry d run_id attempt m orphans hooks
                      (result, orphans) on made live
                      (run_made-unbounded (suc rounds) w hooks (effective_timeout d m) attempt m
                        (opening w run_id attempt m) orphans open'),
                  conclude-IsVerdict w (effective_timeout d m) attempt (run w.interrupts fresh)
                      false (execute_body hooks no_output (opening w run_id attempt m))
                      (execute_body-IsVerdict hooks no_output (opening w run_id attempt m)),
                ),
              ),
            )
      ]
    ]
  ]
]
  where
    waited :
        (hooks : Hooks)
        → m.enabled ≡ true
        → create (qualified_name m) registry ≡ some hooks
        → w.run_before.cancelled ≡ false
        → ltb_ℤ (pos 0) (effective_timeout d m) ≡ true
        → (r : TestResult) × ((after : List Bytes) × ((run_one
                  (suc rounds)
                  w
                  registry
                  d
                  run_id
                  attempt
                  m
                  orphans
                ≡ some (r, after))
              × IsVerdict r.status r.failure_category))
    waited hooks on made live bounded =
        let t = effective_timeout d m in
        let opened = opening w run_id attempt m in
        let (o, ((source, after), (e, learnt))) =
          await_bounded_body-Learns w.ticks (deadline_of w t) rounds w.ready_in_grace t
            (qualified_name m) orphans (set_deadline (deadline_of w t) fresh) late in
        let result = bounded_result w hooks t attempt opened o source in
        (
          finish w result,
          (
            after,
            (
              run_one-made (suc rounds) w registry d run_id attempt m orphans hooks (result, after)
                  on made live
                  (run_made-bounded (suc rounds) w hooks t attempt m opened orphans after o source
                    bounded e),
              bounded_result-IsVerdict w hooks t attempt opened o source,
            ),
          ),
        )
