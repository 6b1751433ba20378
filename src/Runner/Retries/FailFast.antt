-- ===== src/Runner/Retries/FailFast.antt =====
-- What a run with one worker records, with fail-fast and without (src/execution/TestRunner.cpp).
use testforge.Base.{
  append_assoc, subst, append-nil, sym, inr, inl, ◌||◌, Bool-cases, Bool, ◌∙◌, if_false, ap,
  if_true, map, ℕ, Option, refl, [], false, true, ◌++◌, ◌∷◌, ◌&&◌, ◌≡◌, if◌then◌else◌, List,
}
use testforge.Cancellation.{State}
use testforge.TestResult.{any_failure, TestResult}
use testforge.Status.{is_failure}
use testforge.Json.{Value}
use testforge.TestCase.{TestMetadata}
use testforge.Runner.Retries.{
  run_start, handle_result, RunState, with_retries, execute_with_retries, diagnosed,
  run_sequentially, RunOptions,
}

-- The results up to the first failure, which is one of them.
abbrev pub until_failure : List TestResult → List TestResult
until_failure [] = []
until_failure (r ∷ rs) =
    let rest = until_failure rs in if is_failure r.status then r ∷ [] else r ∷ rest

-- With fail-fast a run records no result behind the first failure.
abbrev pub recorded : Bool → List TestResult → List TestResult
recorded fail_fast rs = if fail_fast then until_failure rs else rs

recorded-stops :
    (fail_fast : Bool) (r : TestResult) (rs : List TestResult)
    → (fail_fast && is_failure r.status) ≡ true
    → (recorded fail_fast (r ∷ rs) ≡ r ∷ [])
      × ((fail_fast && any_failure (recorded fail_fast (r ∷ rs))) ≡ true)
unfolding any_failure
recorded-stops false r rs h = cc
recorded-stops true r rs h =
    let one : until_failure (r ∷ rs) ≡ r ∷ [] = if_true (is_failure r.status) _ _ h in
    (one, ap any_failure one ∙ ap (λ b. b || false) h)

recorded-goes :
    (fail_fast : Bool) (r : TestResult) (rs : List TestResult)
    → (fail_fast && is_failure r.status) ≡ false
    → (recorded fail_fast (r ∷ rs) ≡ r ∷ recorded fail_fast rs)
      × ((fail_fast && any_failure (recorded fail_fast (r ∷ rs)))
          ≡ (fail_fast && any_failure (recorded fail_fast rs)))
unfolding any_failure
recorded-goes false r rs h = (refl, refl)
recorded-goes true r rs h =
    let more : until_failure (r ∷ rs) ≡ r ∷ until_failure rs =
      if_false (is_failure r.status) _ _ h in
    (more, ap any_failure more ∙ ap (λ b. b || any_failure (until_failure rs)) h)

recorded-nil :
    (fail_fast : Bool)
    → (recorded fail_fast [] ≡ []) × ((fail_fast && any_failure (recorded fail_fast [])) ≡ false)
unfolding any_failure
recorded-nil false = (refl, refl)
recorded-nil true = (refl, refl)

module _ (diagnose : TestResult → Option Value)
    (outcome : State → TestMetadata → ℕ → TestResult) where
  -- The result that a test gets in a run that is not stopped.
  abbrev pub result_of : RunOptions → State → TestMetadata → TestResult
  result_of o source m = diagnosed diagnose (with_retries o (outcome source m)).0

  execute_with_retries-stopped :
      (o : RunOptions) (m : TestMetadata) (s : RunState)
      → s.stop_scheduling ≡ true
      → execute_with_retries diagnose outcome o m s ≡ s
  unfolding execute_with_retries
  execute_with_retries-stopped o m s h = if_true s.stop_scheduling s _ h

  run_sequentially-stopped :
      (o : RunOptions) (ms : List TestMetadata) (s : RunState)
      → s.stop_scheduling ≡ true
      → run_sequentially diagnose outcome o ms s ≡ s
  unfolding run_sequentially
  run_sequentially-stopped o [] s h = refl
  run_sequentially-stopped o (m ∷ ms) s h =
      ap (run_sequentially diagnose outcome o ms) (execute_with_retries-stopped o m s h)
      ∙ run_sequentially-stopped o ms s h

  -- What a test that fails under fail-fast leaves, and what any other does.
  abbrev Stops : RunState → RunState → TestResult → Type 0
  Stops s after r = (after.results ≡ s.results ++ r ∷ []) × (after.stop_scheduling ≡ true)

  abbrev Goes : RunState → RunState → TestResult → Type 0
  Goes s after r =
      (after.results ≡ s.results ++ r ∷ [])
      × ((after.stop_scheduling ≡ s.stop_scheduling) × (after.run_source ≡ s.run_source))

  handle_result-Stops :
      (o : RunOptions) (r : TestResult) (s : RunState)
      → (o.fail_fast && is_failure (diagnosed diagnose r).status) ≡ true
      → Stops s (handle_result diagnose o r s) (diagnosed diagnose r)
  unfolding handle_result
  handle_result-Stops o r s h = (
    ap (λ (z : RunState). z.results) (if_true _ _ _ h),
    ap (λ (z : RunState). z.stop_scheduling) (if_true _ _ _ h),
  )

  handle_result-Goes :
      (o : RunOptions) (r : TestResult) (s : RunState)
      → (o.fail_fast && is_failure (diagnosed diagnose r).status) ≡ false
      → Goes s (handle_result diagnose o r s) (diagnosed diagnose r)
  unfolding handle_result
  handle_result-Goes o r s h = (
    ap (λ (z : RunState). z.results) (if_false _ _ _ h),
    (
      ap (λ (z : RunState). z.stop_scheduling) (if_false _ _ _ h),
      ap (λ (z : RunState). z.run_source) (if_false _ _ _ h),
    ),
  )

  execute_with_retries-handled :
      (o : RunOptions) (m : TestMetadata) (s : RunState)
      → s.stop_scheduling ≡ false
      → execute_with_retries diagnose outcome o m s
        ≡ handle_result diagnose o
            (with_retries o (outcome s.run_source m)).0
            (record s { saved = s.saved ++ (with_retries o (outcome s.run_source m)).1 })
  unfolding execute_with_retries
  execute_with_retries-handled o m s h = if_false s.stop_scheduling s _ h

  abbrev Records : RunOptions → State → List TestMetadata → RunState → RunState → Type 0
  Records o source ms before after =
      (after.results ≡ before.results ++ recorded o.fail_fast (map (result_of o source) ms))
      × (after.stop_scheduling
          ≡ (o.fail_fast && any_failure (recorded o.fail_fast (map (result_of o source) ms))))

  run_sequentially-Records :
      (o : RunOptions) (ms : List TestMetadata) (s : RunState)
      → s.stop_scheduling ≡ false
      → Records o s.run_source ms s (run_sequentially diagnose outcome o ms s)
  unfolding run_sequentially
  run_sequentially-Records o [] s h =
      let (none_left, goes_on) = recorded-nil o.fail_fast in
      (sym (append-nil s.results) ∙ ap (λ z. s.results ++ z) (sym none_left), h ∙ sym goes_on)
  run_sequentially-Records o (m ∷ ms) s h =
      let before = record s { saved = s.saved ++ (with_retries o (outcome s.run_source m)).1 } in
      let r = result_of o s.run_source m in
      let first = (with_retries o (outcome s.run_source m)).0 in
      let step = execute_with_retries-handled o m s h in
      elim (Bool-cases (o.fail_fast && is_failure r.status)) [
        | inl stops ↦
            let (a, b) = handle_result-Stops o first before stops in
            let (c, d) = recorded-stops o.fail_fast r (map (result_of o s.run_source) ms) stops in
            let last =
              ap (run_sequentially diagnose outcome o ms) step
              ∙ run_sequentially-stopped o ms (handle_result diagnose o first before) b in
            (
              ap (λ (z : RunState). z.results) last ∙ a ∙ ap (λ z. s.results ++ z) (sym c),
              ap (λ (z : RunState). z.stop_scheduling) last ∙ b ∙ sym d,
            )
        | inr goes ↦
            let (a, (b, c)) = handle_result-Goes o first before goes in
            let (d, e) = recorded-goes o.fail_fast r (map (result_of o s.run_source) ms) goes in
            let after = handle_result diagnose o first before in
            let (f, g) =
              subst
                (λ source. Records o source ms after (run_sequentially diagnose outcome o ms after))
                c (run_sequentially-Records o ms after (b ∙ h)) in
            let last = ap (run_sequentially diagnose outcome o ms) step in
            let results = recorded o.fail_fast (map (result_of o s.run_source) ms) in
            (
              ap (λ (z : RunState). z.results) last
                  ∙ f
                  ∙ ap (λ z. z ++ results) a
                  ∙ append_assoc s.results (r ∷ []) results
                  ∙ ap (λ z. s.results ++ z) (sym d),
              ap (λ (z : RunState). z.stop_scheduling) last ∙ g ∙ sym e,
            )
      ]

  -- A run with one worker records, in the order of the selection, the result of every test; with
  -- fail-fast, those up to the first failure and none behind it. Scheduling is stopped exactly if
  -- fail-fast met a failure.
  pub run_sequentially-recorded :
      (o : RunOptions) (ms : List TestMetadata) (source : State)
      → let after = run_sequentially diagnose outcome o ms (run_start source) in
        (after.results ≡ recorded o.fail_fast (map (result_of o source) ms))
        × (after.stop_scheduling
            ≡ (o.fail_fast && any_failure (recorded o.fail_fast (map (result_of o source) ms))))
  run_sequentially-recorded o ms source = run_sequentially-Records o ms (run_start source) refl
