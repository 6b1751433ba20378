-- ===== src/Runner/Retries/Attempts.antt =====
-- What the loop over the attempts guarantees (src/execution/TestRunner.cpp).
use testforge.Base.{
  pos_part, ap, refl, All, Bool-cases, List, suc, zero, inr, inl, [], false, true, ◌∷◌, ◌⊎◌, ◌≡◌,
  ◌≤◌, ◌+◌, ℕ, arith,
}
use testforge.Runner.Retries.{RunOptions, with_retries, flag_flaky, attempts}
use testforge.TestResult.{TestResult}
use testforge.Status.{is_failure}
use testforge.Classifier.{is_retryable}

-- The results of the attempts from number a on, k of them.
abbrev pub tries : (ℕ → TestResult) → ℕ → ℕ → List TestResult
tries outcome a zero = []
tries outcome a (suc k) = outcome a ∷ tries outcome (suc a) k

abbrev pub Retryable : TestResult → Type 0
Retryable r = (is_failure r.status ≡ true) × (is_retryable r.failure_category ≡ true)

-- The k attempts from number a on are those saved, and each failed for a retryable reason; attempt b
-- behind them gave the result, up to its flag; and that is a failure only if no attempt was left or
-- its reason is not retryable.
abbrev pub IsRetried : (ℕ → TestResult) → ℕ → ℕ → ℕ → ℕ → TestResult × List TestResult → Type 0
IsRetried outcome a left k b (final, saved) =
    (k ≤ left)
    × ((a + k ≡ b)
        × ((saved ≡ tries outcome a k)
            × (All Retryable saved
                × ((final ≡ flag_flaky b (outcome b))
                    × (is_failure (outcome b).status ≡ true
                        → (k ≡ left) ⊎ (is_retryable (outcome b).failure_category ≡ false))))))

attempts-IsRetried :
    (outcome : ℕ → TestResult) (left a : ℕ)
    → (k : ℕ) × ((b : ℕ) × IsRetried outcome a left k b (attempts outcome a left))
unfolding attempts
attempts-IsRetried outcome zero a =
    (0, (a, (omega arith, (omega arith, (refl, (tt, (refl, λ h. inl refl)))))))
attempts-IsRetried outcome (suc left) a = elim (Bool-cases (is_failure (outcome a).status)) [
  | inr passes ↦
      (0, (a, rw (passes, attempts) (omega arith, (omega arith, (refl, (tt, (refl, λ h. cc)))))))
  | inl fails ↦ elim (Bool-cases (is_retryable (outcome a).failure_category)) [
    | inr hopeless ↦ (
      0,
      (
        a,
        rw (fails, hopeless, attempts)
            (omega arith, (omega arith, (refl, (tt, (refl, λ h. inr refl))))),
      ),
    )
    | inl again ↦
        let (k, (b, (below, (at, (same, (all, (final, stop))))))) =
          attempts-IsRetried outcome left (suc a) in
        (
          suc k,
          (
            b,
            rw (fails, again, attempts)
                (
                  omega arith,
                  (
                    omega arith,
                    (
                      ap (◌∷◌ (outcome a)) same,
                      (
                        ((fails, again), all),
                        (final, λ h. elim (stop h) [ inl e ↦ inl (ap suc e) | inr n ↦ inr n ]),
                      ),
                    ),
                  ),
                ),
          ),
        )
  ]
]

-- A test is attempted at most 1 + max(0, retry_failed) times, with numbers from 1 on: all attempts but
-- the last failed for a retryable reason, and they are the ones saved, in order; the last gives the
-- result, flagged as flaky exactly if it is a retry that did not fail; and if it failed, then no
-- attempt was left or its reason is not retryable.
pub with_retries-IsRetried :
    (o : RunOptions) (outcome : ℕ → TestResult)
    → (k : ℕ) × ((b : ℕ) × IsRetried outcome 1
          (pos_part o.retry_failed)
          k
          b
          (with_retries o outcome))
unfolding with_retries
with_retries-IsRetried o outcome = attempts-IsRetried outcome (pos_part o.retry_failed) 1
