-- ===== src/Runner/Attempt/Verdict.antt =====
-- The verdict of an execution: what its status says of its category, and what a deadline or a
-- cancellation makes of it (src/execution/TestRunner.cpp).
use testforge.Base.{
  ap, sym, subst, Bool-cases, Bool, inr, inl, refl, false, true, ◌∙◌, ◌≡◌, ◌≤◌, arith,
}
use testforge.Runner.Context.{Context}
use testforge.Status.{
  error, failed, timeout, skipped, passed, timed_out, no_failure, FailureCategory, is_failure,
  TestStatus,
}
use testforge.Classifier.{
  std_exception, bad_alloc, forge_error, assertion, test_cancelled, from_exception, skip_test,
  refine, from_unknown_exception, Exception, specificity,
}
use testforge.Runner.Body.{
  throws_other, after_set_up, returns, throws, Ending, Hooks, execute_body, verdict,
}
use testforge.Runner.Attempt.{reclassify}
use testforge.TestResult.{TestResult}
use testforge.Classifier.Exceptions.{from_exception-StatusOf, StatusOf}
use testforge.Json.{Value}
use testforge.Classifier.Refine.{refine-fixed, refine-specificity}

-- What a status promises of the category: no failure, no category; a timeout is one; a failed
-- assertion is never vaguer than that.
abbrev pub IsVerdict : TestStatus → FailureCategory → Type 0
IsVerdict passed c = c ≡ no_failure
IsVerdict skipped c = c ≡ no_failure
IsVerdict timeout c = c ≡ timed_out
IsVerdict failed c = 2 ≤ specificity c
IsVerdict error c = Unit

StatusOf-IsVerdict :
    (e : Exception) (s : TestStatus) (c : FailureCategory) → StatusOf e s c → IsVerdict s c
unfolding specificity
StatusOf-IsVerdict (skip_test w) s c (a, b) = subst (λ x. IsVerdict x c) (sym a) b
StatusOf-IsVerdict (test_cancelled w) s c (a, b) = subst (λ x. IsVerdict x c) (sym a) b
StatusOf-IsVerdict (assertion w d) s c (a, b) =
    subst (λ x. IsVerdict x c) (sym a) (subst (λ k. 2 ≤ specificity k) (sym b) (omega arith))
StatusOf-IsVerdict (forge_error w k) s c (a, inl (b, d)) =
    subst (λ x. IsVerdict x c) (sym d) (a ∙ b)
StatusOf-IsVerdict (forge_error w k) s c (a, inr (b, d)) = subst (λ x. IsVerdict x c) (sym d) tt
StatusOf-IsVerdict (bad_alloc w t) s c (a, b) = subst (λ x. IsVerdict x c) (sym a) tt
StatusOf-IsVerdict (std_exception w t) s c a = subst (λ x. IsVerdict x c) (sym a) tt

verdict-IsVerdict :
    (up : Bool) (e : Ending) (r : TestResult)
    → IsVerdict (verdict up e r).status (verdict up e r).failure_category
unfolding verdict from_unknown_exception
verdict-IsVerdict up returns r = refl
verdict-IsVerdict true (throws e) r =
    StatusOf-IsVerdict e (from_exception e).status (from_exception e).category
      (from_exception-StatusOf e)
verdict-IsVerdict false (throws e) r = by_status (from_exception e).status refl (
    StatusOf-IsVerdict e (from_exception e).status (from_exception e).category
      (from_exception-StatusOf e))
  where
    by_status :
        (s : TestStatus)
        → (from_exception e).status ≡ s
        → IsVerdict s (from_exception e).category
        → IsVerdict
            (verdict false (throws e) r).status
            (verdict false (throws e) r).failure_category
    by_status failed h v = rw h tt
    by_status passed h v = rw h (subst (λ x. IsVerdict x (from_exception e).category) (sym h) v)
    by_status skipped h v = rw h (subst (λ x. IsVerdict x (from_exception e).category) (sym h) v)
    by_status error h v = rw h (subst (λ x. IsVerdict x (from_exception e).category) (sym h) v)
    by_status timeout h v = rw h (subst (λ x. IsVerdict x (from_exception e).category) (sym h) v)
verdict-IsVerdict up throws_other r = tt

after_set_up-IsVerdict :
    (h : Hooks) (r : TestResult) (up : Context × Ending)
    → IsVerdict (after_set_up h r up).1.0.status (after_set_up h r up).1.0.failure_category
unfolding after_set_up
after_set_up-IsVerdict h r (c, returns) = verdict-IsVerdict true (h.execute c).1 r
after_set_up-IsVerdict h r (c, throws e) = verdict-IsVerdict false (throws e) r
after_set_up-IsVerdict h r (c, throws_other) = verdict-IsVerdict false throws_other r

pub execute_body-IsVerdict :
    (h : Hooks) (c : Context) (r : TestResult)
    → IsVerdict (execute_body h c r).1.0.status (execute_body h c r).1.0.failure_category
unfolding execute_body
execute_body-IsVerdict h c r = after_set_up-IsVerdict h r (h.set_up c)

timed_out-specificity : specificity timed_out ≡ 4
unfolding specificity
timed_out-specificity = refl

refine-IsVerdict :
    (s : TestStatus) (c : FailureCategory) (v : Value)
    → IsVerdict s c
    → is_failure s ≡ true
    → IsVerdict s (refine c v)
unfolding is_failure
refine-IsVerdict passed c v h f = cc
refine-IsVerdict skipped c v h f = cc
refine-IsVerdict failed c v h f = omega (arith, h, refine-specificity c v)
refine-IsVerdict error c v h f = tt
refine-IsVerdict timeout c v h f = refine-fixed c v (ap specificity h ∙ timed_out-specificity) ∙ h

pub reclassify-IsVerdict :
    (r : TestResult)
    → IsVerdict r.status r.failure_category
    → ((reclassify r).status ≡ r.status) × IsVerdict r.status (reclassify r).failure_category
unfolding reclassify
reclassify-IsVerdict r h = elim (Bool-cases (is_failure r.status)) [
  | inl fails ↦
      rw (fails, reclassify) (refl, refine-IsVerdict r.status r.failure_category r.metadata h fails)
  | inr passes ↦ rw (passes, reclassify) (refl, h)
]
