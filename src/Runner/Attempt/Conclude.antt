-- ===== src/Runner/Attempt/Conclude.antt =====
-- What the override and the second classification make of a body's result
-- (src/execution/TestRunner.cpp).
use testforge.Base.{
  Bool-cases, ap, not, sym, subst, ℕ, Bytes, List, ℤ, inr, inl, refl, false, true, ◌&&◌, ◌∙◌, ◌≡◌,
  Bool,
}
use testforge.Cancellation.{State}
use testforge.Runner.Context.{apply_context_output, Context}
use testforge.Runner.Attempt.{conclude, World}
use testforge.Runner.Body.{override_verdict, override_deadline}
use testforge.TestResult.{TestResult}
use testforge.Status.{
  error, no_failure, failed, skipped, passed, timed_out, FailureCategory, timeout, TestStatus,
}
use testforge.Runner.Attempt.Verdict.{reclassify-IsVerdict, IsVerdict}

-- The override leaves a verdict: a timeout where the deadline was exceeded, else a skip where the run
-- was cancelled, and else the body's own.
abbrev Overrides : Bool → Bool → TestResult → TestResult → Type 0
Overrides true cancelled before after =
    (after.status ≡ timeout) × (after.failure_category ≡ timed_out)
Overrides false true before after = (after.status ≡ skipped) × (after.failure_category ≡ no_failure)
Overrides false false before after =
    (after.status ≡ before.status) × (after.failure_category ≡ before.failure_category)

override_deadline-timeout :
    (t : ℤ) (r : TestResult)
    → ((override_deadline t r).status ≡ timeout)
      × ((override_deadline t r).failure_category ≡ timed_out)
unfolding override_deadline
override_deadline-timeout t r = by_status r.status refl
  where
    by_status :
        (s : TestStatus)
        → r.status ≡ s
        → ((override_deadline t r).status ≡ timeout)
          × ((override_deadline t r).failure_category ≡ timed_out)
    by_status timeout h = rw (h, override_deadline) (refl, refl)
    by_status passed h = rw (h, override_deadline) (refl, refl)
    by_status failed h = rw (h, override_deadline) (refl, refl)
    by_status skipped h = rw (h, override_deadline) (refl, refl)
    by_status error h = rw (h, override_deadline) (refl, refl)

override_verdict-Overrides :
    (exceeded cancelled : Bool) (t : ℤ) (reason : Bytes) (r : TestResult)
    → Overrides exceeded cancelled r (override_verdict exceeded cancelled t reason r)
unfolding override_verdict
override_verdict-Overrides true cancelled t reason r = override_deadline-timeout t r
override_verdict-Overrides false true t reason r = (refl, refl)
override_verdict-Overrides false false t reason r = (refl, refl)

apply_context_output-kept :
    (c : Context) (r : TestResult)
    → ((apply_context_output c r).status ≡ r.status)
      × ((apply_context_output c r).failure_category ≡ r.failure_category)
unfolding apply_context_output
apply_context_output-kept c r = (refl, refl)

-- The result that the override judges.
abbrev pub body_result : Context × (TestResult × List Bytes) → TestResult
body_result b = b.1.0

IsVerdict-subst :
    (s s' : TestStatus) (c c' : FailureCategory) → s ≡ s' → c ≡ c' → IsVerdict s' c' → IsVerdict s c
IsVerdict-subst s s' c c' e f v =
    subst (λ x. IsVerdict x c) (sym e) (subst (IsVerdict s') (sym f) v)

module _ (w : World) (t : ℤ) (attempt : ℕ) (source : State) where
  abbrev read : Context × (TestResult × List Bytes) → TestResult
  read b = record (body_result b) { logs = b.1.1; worker = w.worker; attempt = attempt }

  -- The result between the override and the second pass of the classifier.
  abbrev judged : Bool → Bool → Context × (TestResult × List Bytes) → TestResult
  judged exceeded cancelled b = override_verdict exceeded cancelled t w.run_after.reason (read b)

  conclude-judged :
      (exceeded : Bool) (b : Context × (TestResult × List Bytes)) (s : TestStatus)
      (c : FailureCategory)
      → (judged exceeded (source.cancelled && not exceeded) b).status ≡ s
      → (judged exceeded (source.cancelled && not exceeded) b).failure_category ≡ c
      → IsVerdict s c
      → ((conclude w t attempt exceeded source b).status ≡ s)
        × IsVerdict s (conclude w t attempt exceeded source b).failure_category
  unfolding conclude apply_context_output
  conclude-judged exceeded b s c e f v =
      let j = judged exceeded (source.cancelled && not exceeded) b in
      let (k, u) =
        reclassify-IsVerdict (apply_context_output b.0 j)
          (IsVerdict-subst j.status s j.failure_category c e f v) in
      (
        k ∙ e,
        subst (λ x. IsVerdict x (conclude w t attempt exceeded source b).failure_category) e u,
      )

  -- Where the deadline was exceeded, nothing that the body did or recorded changes the verdict.
  pub conclude-exceeded :
      (b : Context × (TestResult × List Bytes))
      → ((conclude w t attempt true source b).status ≡ timeout)
        × ((conclude w t attempt true source b).failure_category ≡ timed_out)
  conclude-exceeded b =
      let (s, c) =
        override_verdict-Overrides true (source.cancelled && not true) t w.run_after.reason
          (read b) in
      conclude-judged true b timeout timed_out s c refl

  -- Where the run was cancelled in time, neither does it.
  pub conclude-cancelled :
      (b : Context × (TestResult × List Bytes))
      → source.cancelled ≡ true
      → ((conclude w t attempt false source b).status ≡ skipped)
        × ((conclude w t attempt false source b).failure_category ≡ no_failure)
  conclude-cancelled b h =
      let (s, c) =
        subst (λ x. Overrides false true (read b) (judged false x b)) (sym (ap (λ z. z && true) h))
          (override_verdict-Overrides false true t w.run_after.reason (read b)) in
      conclude-judged false b skipped no_failure s c refl

  -- Otherwise the status is the body's.
  pub conclude-kept :
      (b : Context × (TestResult × List Bytes))
      → source.cancelled ≡ false
      → IsVerdict (body_result b).status (body_result b).failure_category
      → ((conclude w t attempt false source b).status ≡ (body_result b).status)
        × IsVerdict (body_result b).status (conclude w t attempt false source b).failure_category
  conclude-kept b h v =
      let (s, c) =
        subst (λ x. Overrides false false (read b) (judged false x b)) (sym (ap (λ z. z && true) h))
          (override_verdict-Overrides false false t w.run_after.reason (read b)) in
      conclude-judged false b (body_result b).status (body_result b).failure_category s c v

  pub conclude-IsVerdict :
      (exceeded : Bool) (b : Context × (TestResult × List Bytes))
      → IsVerdict (body_result b).status (body_result b).failure_category
      → IsVerdict
          (conclude w t attempt exceeded source b).status
          (conclude w t attempt exceeded source b).failure_category
  conclude-IsVerdict true b v =
      let (s, c) = conclude-exceeded b in IsVerdict-subst _ timeout _ timed_out s c refl
  conclude-IsVerdict false b v = elim (Bool-cases source.cancelled) [
    | inl h ↦ let (s, c) = conclude-cancelled b h in IsVerdict-subst _ skipped _ no_failure s c refl
    | inr h ↦
        let (s, u) = conclude-kept b h v in
        subst (λ x. IsVerdict x (conclude w t attempt false source b).failure_category) (sym s) u
  ]
