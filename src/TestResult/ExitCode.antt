-- ===== src/TestResult/ExitCode.antt =====
-- What a caller may conclude from the exit code (src/core/TestResult.cpp).
use testforge.Base.{Bytes, All, List, refl, [], false, ◌∷◌, ◌↔◌, ◌≡◌, arith}
use testforge.TestResult.{same_category, any_failure, exit_code, any_framework_error, TestResult}
use testforge.Status.{framework_error, is_failure}

-- No failure and no framework error.
abbrev pub IsClean : TestResult → Type 0
IsClean r =
    (is_failure r.status ≡ false) × (same_category r.failure_category framework_error ≡ false)

All-IsClean_iff :
    (rs : List TestResult)
    → ((any_framework_error rs ≡ false) × (any_failure rs ≡ false)) ↔ All IsClean rs
unfolding any_framework_error any_failure
All-IsClean_iff [] = (λ h. tt, λ h. (refl, refl))
All-IsClean_iff (r ∷ rs) = (
  λ h. ((ground arith, ground arith), (All-IsClean_iff rs).0 (ground arith, ground arith)),
  λ (h, hs). let (a, b) = (All-IsClean_iff rs).1 hs in (ground arith, ground arith),
)

-- The exit code is 0 exactly when no test failed, none met a framework error, and the run was not
-- cut short.
pub exit_code-zero_iff :
    (rs : List TestResult) (reason : Bytes)
    → (exit_code rs reason ≡ 0) ↔ (All IsClean rs × (reason ≡ []))
unfolding exit_code
exit_code-zero_iff rs [] = (
  λ h. ((All-IsClean_iff rs).0 (ground arith, ground arith), refl),
  λ (h, e). let (a, b) = (All-IsClean_iff rs).1 h in ground arith,
)
exit_code-zero_iff rs (c ∷ reason) = (λ h. absurd (ground arith), λ (h, e). cc)
