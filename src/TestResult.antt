-- ===== src/TestResult.antt =====
-- Results, their statistics and the exit code of a run (include/testforge/core/TestResult.hpp,
-- src/core/TestResult.cpp). Times and durations are signed numbers of milliseconds, without a bound;
-- the rates, which are doubles, and the JSON forms are not modelled.
pub mod Counts
pub mod ExitCode
use testforge.Base.{
  get_elem?, min, not, length, map, is_empty, ltb_ℤ, Bool, suc, some, none, [], false, ◌∷◌, ◌||◌,
  ◌/◌, ◌*◌, ◌-◌, ◌+◌, if◌then◌else◌, ◌==◌, quot, pos, List, ◌+ℤ◌, ℕ, ℤ, Bytes, arith,
}
use testforge.TestCase.{qualify}
use testforge.Status.{
  configuration_failure, dependency_failure, application_failure, resource_failure,
  environment_failure, timeout, error, network_failure, timed_out, skipped, framework_error,
  unknown, failed, assertion_failure, passed, no_failure, is_failure, TestStatus, FailureCategory,
}
use testforge.Json.{end, object, Value}
use testforge.Ids.{test_id}

-- A point in time is a number that the clock gave.
pub record TestResult : Type 0 where
  pub test_id : Bytes
  pub test_name : Bytes
  pub suite_name : Bytes
  pub run_id : Bytes
  pub status : TestStatus
  pub failure_category : FailureCategory
  pub start_time : ℤ
  pub end_time : ℤ
  pub duration : ℤ
  pub error_message : Bytes
  pub error_detail : Bytes
  pub logs : List Bytes
  pub tags : List Bytes
  pub metadata : Value
  pub diagnostics : Value
  pub attempt : ℕ
  pub flaky_candidate : Bool
  pub worker : Bytes

unfoldable pub result_name : TestResult → Bytes
unfolding qualify
result_name r = qualify r.suite_name r.test_name

-- `TestResult::make`, with the time that the clock shows.
unfoldable pub make : ℤ → Bytes → Bytes → TestStatus → TestResult
make now suite name status = record {
  test_id = test_id suite name;
  test_name = name;
  suite_name = suite;
  run_id = [];
  status = status;
  failure_category = elim status [ passed ↦ no_failure | skipped ↦ no_failure | _ ↦ unknown ];
  start_time = now;
  end_time = now;
  duration = pos 0;
  error_message = [];
  error_detail = [];
  logs = [];
  tags = [];
  metadata = object end;
  diagnostics = object end;
  attempt = 1;
  flaky_candidate = false;
  worker = [];
}

-- The position of a category in the enumeration.
unfoldable pub category_index : FailureCategory → ℕ
category_index no_failure = 0
category_index assertion_failure = 1
category_index timed_out = 2
category_index network_failure = 3
category_index environment_failure = 4
category_index resource_failure = 5
category_index application_failure = 6
category_index dependency_failure = 7
category_index configuration_failure = 8
category_index framework_error = 9
category_index unknown = 10

unfoldable pub same_category : FailureCategory → FailureCategory → Bool
unfolding category_index
same_category a b = category_index a == category_index b

-- `failureCategoryCounts` is a map; a category that is not in it counts as 0.
pub record RunStatistics : Type 0 where
  pub total : ℕ
  pub passed_count : ℕ
  pub failed_count : ℕ
  pub skipped_count : ℕ
  pub errors : ℕ
  pub timeouts : ℕ
  pub total_duration : ℤ
  pub wall_duration : ℤ
  pub average_duration : ℤ
  pub median_duration : ℤ
  pub p95_duration : ℤ
  pub max_duration : ℤ
  pub slowest_test : Bytes
  pub category_counts : FailureCategory → ℕ

unfoldable pub count_status : TestStatus → RunStatistics → RunStatistics
count_status passed s = record s { passed_count = suc s.passed_count }
count_status failed s = record s { failed_count = suc s.failed_count }
count_status skipped s = record s { skipped_count = suc s.skipped_count }
count_status error s = record s { errors = suc s.errors }
count_status timeout s = record s { timeouts = suc s.timeouts }

unfoldable pub count_category : FailureCategory → RunStatistics → RunStatistics
unfolding same_category
count_category c s = if same_category c no_failure then s else record s {
  category_counts =
      λ k. if same_category k c then suc (s.category_counts k) else s.category_counts k;
}

unfoldable pub note_slowest : TestResult → RunStatistics → RunStatistics
unfolding result_name
note_slowest r s =
    if ltb_ℤ s.max_duration r.duration
    then record s { max_duration = r.duration; slowest_test = result_name r }
    else s

-- The loop of `compute`; `sum` is kept in `total_duration`.
unfoldable pub tally : RunStatistics → List TestResult → RunStatistics
unfolding count_status count_category note_slowest ◌+ℤ◌
tally s [] = s
tally s (r ∷ rs) =
    let counted = count_category r.failure_category (count_status r.status s) in
    tally
      (note_slowest r (record counted { total_duration = counted.total_duration +ℤ r.duration })) rs

unfoldable pub insert_duration : ℤ → List ℤ → List ℤ
insert_duration d [] = d ∷ []
insert_duration d (e ∷ es) =
    let later = insert_duration d es in if ltb_ℤ e d then e ∷ later else d ∷ e ∷ es

-- `std::sort` of the durations.
unfoldable pub sort_durations : List ℤ → List ℤ
unfolding insert_duration
sort_durations [] = []
sort_durations (d ∷ ds) = insert_duration d (sort_durations ds)

-- The nearest rank, `ceil(percent / 100 * count)`. For the source's fractions 0.50 and 0.95 the
-- product of doubles rounds to a whole number exactly where the true product is whole.
unfoldable pub rank : ℕ → ℕ → ℕ
rank percent count = (percent * count + 99) / 100

unfoldable pub percentile : List ℤ → ℕ → ℤ
unfolding rank
percentile sorted percent =
    if is_empty sorted
    then pos 0
    else let r = rank percent (length sorted) in
      let index = if r == 0 then 0 else min (r - 1) (length sorted - 1) in
      elim (get_elem? sorted index) [ none ↦ pos 0 | some d ↦ d ]

abbrev pub no_statistics : RunStatistics
no_statistics = record {
  total = 0;
  passed_count = 0;
  failed_count = 0;
  skipped_count = 0;
  errors = 0;
  timeouts = 0;
  total_duration = pos 0;
  wall_duration = pos 0;
  average_duration = pos 0;
  median_duration = pos 0;
  p95_duration = pos 0;
  max_duration = pos 0;
  slowest_test = [];
  category_counts = λ k. 0;
}

abbrev pub durations : List TestResult → List ℤ
durations = map (λ r. r.duration)

unfoldable pub compute : List TestResult → ℤ → RunStatistics
unfolding tally quot sort_durations percentile
compute results wall =
    let s = tally (record no_statistics { wall_duration = wall; total = length results }) results in
    if is_empty results
    then s
    else let sorted = sort_durations (durations results) in
      record s {
        average_duration = quot s.total_duration (length results);
        median_duration = percentile sorted 50;
        p95_duration = percentile sorted 95;
      }

unfoldable pub any_framework_error : List TestResult → Bool
unfolding same_category
any_framework_error [] = false
any_framework_error (r ∷ rs) =
    same_category r.failure_category framework_error || any_framework_error rs

unfoldable pub any_failure : List TestResult → Bool
unfolding is_failure
any_failure [] = false
any_failure (r ∷ rs) = is_failure r.status || any_failure rs

-- `TestRun::exitCode`, from the results and the reason for which the run was cut short.
unfoldable pub exit_code : List TestResult → Bytes → ℕ
unfolding any_framework_error any_failure
exit_code results cancellation_reason =
    if any_framework_error results
    then 2
    else if any_failure results
    then 1
    else if not (is_empty cancellation_reason)
    then 4
    else 0
