-- ===== src/TestResult/Counts.antt =====
-- The counts of a run (`RunStatistics::compute` of src/core/TestResult.cpp).
use testforge.Base.{
  is_empty, Bool-cases, ℤ, inr, inl, ap, length, List, ℕ, suc, refl, [], ◌∷◌, ◌∙◌, ◌≡◌, ◌+◌, ◌+ℤ◌,
  arith,
}
use testforge.TestResult.{
  no_statistics, compute, note_slowest, count_category, tally, TestResult, count_status,
  RunStatistics,
}
use testforge.Status.{timeout, error, skipped, failed, passed, FailureCategory, TestStatus}

abbrev pub counted : RunStatistics → ℕ
counted s = s.passed_count + s.failed_count + s.skipped_count + s.errors + s.timeouts

count_status-counted :
    (k : TestStatus) (s : RunStatistics) → counted (count_status k s) ≡ suc (counted s)
unfolding count_status
count_status-counted passed s = omega arith
count_status-counted failed s = omega arith
count_status-counted skipped s = omega arith
count_status-counted error s = omega arith
count_status-counted timeout s = omega arith

-- One round of the loop.
abbrev round : TestResult → RunStatistics → RunStatistics
round r s =
    let counts = count_category r.failure_category (count_status r.status s) in
    note_slowest r (record counts { total_duration = counts.total_duration +ℤ r.duration })

tally_step :
    (s : RunStatistics) (r : TestResult) (rs : List TestResult)
    → tally s (r ∷ rs) ≡ tally (round r s) rs
unfolding tally
tally_step s r rs = refl

count_category-counted :
    (c : FailureCategory) (s : RunStatistics)
    → (counted (count_category c s) ≡ counted s)
      × ((count_category c s).total ≡ s.total)
      × ((count_category c s).max_duration ≡ s.max_duration)
      × ((count_category c s).slowest_test ≡ s.slowest_test)
unfolding count_category
count_category-counted c s = ground arith

count_status-kept :
    (k : TestStatus) (s : RunStatistics)
    → ((count_status k s).total ≡ s.total)
      × ((count_status k s).max_duration ≡ s.max_duration)
      × ((count_status k s).slowest_test ≡ s.slowest_test)
      × ((count_status k s).category_counts ≡ s.category_counts)
unfolding count_status
count_status-kept passed s = (refl, refl, refl, refl)
count_status-kept failed s = (refl, refl, refl, refl)
count_status-kept skipped s = (refl, refl, refl, refl)
count_status-kept error s = (refl, refl, refl, refl)
count_status-kept timeout s = (refl, refl, refl, refl)

note_slowest-kept :
    (r : TestResult) (s : RunStatistics)
    → (counted (note_slowest r s) ≡ counted s)
      × ((note_slowest r s).total ≡ s.total)
      × ((note_slowest r s).category_counts ≡ s.category_counts)
unfolding note_slowest
note_slowest-kept r s = ground arith

round-counted :
    (r : TestResult) (s : RunStatistics)
    → (counted (round r s) ≡ suc (counted s)) × ((round r s).total ≡ s.total)
round-counted r s =
    let a = count_status r.status s in
    let b = count_category r.failure_category a in
    let c = record b { total_duration = b.total_duration +ℤ r.duration } in
    let n = note_slowest-kept r c in
    let m = count_category-counted r.failure_category a in
    (n.0 ∙ m.0 ∙ count_status-counted r.status s, n.1 ∙ m.1 ∙ (count_status-kept r.status s).0)

tally-counted :
    (s : RunStatistics) (rs : List TestResult)
    → (counted (tally s rs) ≡ counted s + length rs) × ((tally s rs).total ≡ s.total)
tally-counted s [] = unfold tally in (omega arith, refl)
tally-counted s (r ∷ rs) =
    let (a, b) = tally-counted (round r s) rs in
    let (c, d) = round-counted r s in
    rw (tally_step s r rs) (a ∙ ap (λ n. n + length rs) c ∙ (omega arith), b ∙ d)

compute-tally :
    (results : List TestResult) (wall : ℤ)
    → let s =
        tally (record no_statistics { wall_duration = wall; total = length results }) results in
      (counted (compute results wall) ≡ counted s) × ((compute results wall).total ≡ s.total)
unfolding compute
compute-tally results wall = elim (Bool-cases (is_empty results)) [
  | inl e ↦ rw (e, compute) (refl, refl)
  | inr e ↦ rw (e, compute) (refl, refl)
]

-- Every result counts in exactly one of the five status counts: they add up to the number of the
-- results, which is also the total that is reported.
pub compute-counted :
    (results : List TestResult) (wall : ℤ)
    → let s = compute results wall in
      (s.passed_count + s.failed_count + s.skipped_count + s.errors + s.timeouts ≡ length results)
      × (s.total ≡ length results)
compute-counted results wall =
    let start = record no_statistics { wall_duration = wall; total = length results } in
    let (a, b) = compute-tally results wall in
    let (c, d) = tally-counted start results in (omega (arith, a, c), b ∙ d)
