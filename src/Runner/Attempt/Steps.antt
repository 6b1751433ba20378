-- ===== src/Runner/Attempt/Steps.antt =====
-- How an execution of a test that was made computes (src/execution/TestRunner.cpp).
use testforge.Base.{
  Bool-cases, ltb_ℤ, List, Bytes, ℤ, ℕ, pos, inr, inl, refl, some, false, true, ◌≡◌,
}
use testforge.Cancellation.{set_deadline, fresh, State, run}
use testforge.Runner.Context.{no_output}
use testforge.Registry.{Registry, create}
use testforge.Runner.Attempt.{
  deadline_of, effective_timeout, conclude, World, run_one, bounded_result, run_made, opening,
  finish,
}
use testforge.Runner.Body.{execute_body, Hooks, describe_abandoned}
use testforge.TestResult.{TestResult}
use testforge.TestCase.{qualified_name, TestMetadata}
use testforge.Status.{timed_out, timeout}
use testforge.Runner.Waiting.{await_bounded_body, BodyOutcome}
use testforge.Runner.Attempt.Verdict.{execute_body-IsVerdict, IsVerdict}
use testforge.Runner.Attempt.Conclude.{conclude-IsVerdict, conclude-exceeded}

pub run_made-bounded :
    (fuel : ℕ) (w : World) (hooks : Hooks) (t : ℤ) (attempt : ℕ) (m : TestMetadata)
    (opened : TestResult) (orphans after : List Bytes) (o : BodyOutcome) (source : State)
    → ltb_ℤ (pos 0) t ≡ true
    → await_bounded_body fuel w.ticks
        (deadline_of w t)
        w.ready_in_grace
        t
        (qualified_name m)
        orphans
        (set_deadline (deadline_of w t) fresh)
      ≡ some (o, (source, after))
    → run_made fuel w hooks t attempt m opened orphans
      ≡ some (bounded_result w hooks t attempt opened o source, after)
unfolding run_made
run_made-bounded fuel w hooks t attempt m opened orphans after o source b e =
    rw (b, e, run_made) refl

pub run_made-unbounded :
    (fuel : ℕ) (w : World) (hooks : Hooks) (t : ℤ) (attempt : ℕ) (m : TestMetadata)
    (opened : TestResult) (orphans : List Bytes)
    → ltb_ℤ (pos 0) t ≡ false
    → run_made fuel w hooks t attempt m opened orphans
      ≡ some (
        conclude w t attempt false (run w.interrupts fresh) (execute_body hooks no_output opened),
        orphans,
      )
unfolding run_made
run_made-unbounded fuel w hooks t attempt m opened orphans b = rw (b, run_made) refl

describe_abandoned-timeout :
    (t : ℤ) (attempt : ℕ) (r : TestResult)
    → ((describe_abandoned t attempt r).status ≡ timeout)
      × ((describe_abandoned t attempt r).failure_category ≡ timed_out)
unfolding describe_abandoned
describe_abandoned-timeout t attempt r = (refl, refl)

pub bounded_result-exceeded :
    (w : World) (hooks : Hooks) (t : ℤ) (attempt : ℕ) (opened : TestResult) (o : BodyOutcome)
    (source : State)
    → o.deadline_exceeded ≡ true
    → ((bounded_result w hooks t attempt opened o source).status ≡ timeout)
      × ((bounded_result w hooks t attempt opened o source).failure_category ≡ timed_out)
unfolding bounded_result
bounded_result-exceeded w hooks t attempt opened o source h = elim (Bool-cases o.completed) [
  | inl done ↦
      rw (done, h, bounded_result)
        (conclude-exceeded w t attempt (run w.interrupts source)
          (execute_body hooks no_output opened))
  | inr lost ↦ rw (lost, bounded_result) (describe_abandoned-timeout t attempt opened)
]

pub bounded_result-IsVerdict :
    (w : World) (hooks : Hooks) (t : ℤ) (attempt : ℕ) (opened : TestResult) (o : BodyOutcome)
    (source : State)
    → IsVerdict
        (bounded_result w hooks t attempt opened o source).status
        (bounded_result w hooks t attempt opened o source).failure_category
unfolding bounded_result
bounded_result-IsVerdict w hooks t attempt opened o source = elim (Bool-cases o.completed) [
  | inl done ↦
      rw (done, bounded_result)
        (conclude-IsVerdict w t attempt (run w.interrupts source) o.deadline_exceeded
          (execute_body hooks no_output opened) (execute_body-IsVerdict hooks no_output opened))
  | inr lost ↦ rw (lost, bounded_result) (describe_abandoned-timeout t attempt opened).1
]

pub run_one-made :
    (fuel : ℕ) (w : World) (registry : Registry Hooks) (default_timeout_ms : ℤ) (run_id : Bytes)
    (attempt : ℕ) (m : TestMetadata) (orphans : List Bytes) (hooks : Hooks)
    (out : TestResult × List Bytes)
    → m.enabled ≡ true
    → create (qualified_name m) registry ≡ some hooks
    → w.run_before.cancelled ≡ false
    → run_made fuel w hooks
        (effective_timeout default_timeout_ms m)
        attempt
        m
        (opening w run_id attempt m)
        orphans
      ≡ some out
    → run_one fuel w registry default_timeout_ms run_id attempt m orphans
      ≡ some (finish w out.0, out.1)
unfolding run_one
run_one-made fuel w registry d run_id attempt m orphans hooks out on made live e =
    rw (on, made, live, e, run_one) refl
