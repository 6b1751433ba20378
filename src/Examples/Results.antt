-- ===== src/Examples/Results.antt =====
-- Tests of the statistics and of the exit code.
use testforge.Base.{Bytes, codes, pos, refl, [], ◌∷◌, ◌≡◌, List}
use testforge.TestResult.{make, TestResult, exit_code}
use testforge.Status.{failed, passed}

abbrev results : List TestResult
results =
    make (pos 5) (codes "auth") (codes "login") passed
    ∷ make (pos 9) (codes "web") (codes "search") failed
    ∷ []

abbrev no_reason : Bytes
no_reason = []

exit_code-results : exit_code results no_reason ≡ 1
unfolding exit_code make
exit_code-results = refl
