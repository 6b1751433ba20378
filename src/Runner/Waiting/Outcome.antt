-- ===== src/Runner/Waiting/Outcome.antt =====
-- What the wait for a bounded body answers (src/execution/TestRunner.cpp).
use testforge.Base.{
  leb→le, not, Bool-cases, leb, ℤ, List, ap, subst, Bool, Bytes, suc, zero, inr, inl, refl, some,
  false, true, ◌||◌, ◌⊎◌, ◌≡◌, ◌<◌, ◌≤◌, ◌+◌, if◌then◌else◌, ℕ, arith,
}
use testforge.Cancellation.{State, cancel, run}
use testforge.Runner.Waiting.{
  adopt, deadline_reason, BodyOutcome, forward, poll, Tick, await_bounded_body, settle,
}

module _ (ticks : ℕ → Tick) (deadline : ℕ) where
  -- The rounds from i up to j, j excluded, found the body running before its deadline.
  abbrev pub Running : ℕ → ℕ → Type 0
  Running i j = (m : ℕ) → i ≤ m → m < j → ((ticks m).now < deadline) × ((ticks m).ready ≡ false)

  -- A round that ends the loop, the body completed or not.
  abbrev pub EndsAt : Bool → ℕ → Type 0
  EndsAt true j = ((ticks j).now < deadline) × ((ticks j).ready ≡ true)
  EndsAt false j = deadline ≤ (ticks j).now

  abbrev pub Ends : ℕ → Bool → Type 0
  Ends i completed = (j : ℕ) × ((i ≤ j) × (Running i j × EndsAt completed j))

  Running-here : (i : ℕ) → Running i i
  Running-here i m a b = absurd (omega arith)

  Running-step :
      (i j : ℕ)
      → (ticks i).now < deadline
      → (ticks i).ready ≡ false
      → Running (suc i) j
      → Running i j
  Running-step i j early waits r m a b = elim (le_cases i m a) [
    | inl e ↦ subst (λ k. ((ticks k).now < deadline) × ((ticks k).ready ≡ false)) e (early, waits)
    | inr h ↦ r m h b
  ]
    where
      le_cases : (k n : ℕ) → k ≤ n → (k ≡ n) ⊎ (suc k ≤ n)
      le_cases k n h = ground arith

  -- The answer of the loop from round i on, and why.
  abbrev Answers : ℕ → ℕ → State → Type 0
  Answers fuel i source =
      (ended : Bool × State) × ((poll ticks deadline fuel i source ≡ some ended) × Ends i ended.0)

  poll-turn :
      (fuel i : ℕ) (source : State)
      → ((ticks i).now < deadline
          → Answers fuel (suc i) (forward (ticks i).run_source (run (ticks i).meanwhile source)))
      → Answers (suc fuel) i source
  unfolding poll
  poll-turn fuel i source later = elim (Bool-cases (leb deadline (ticks i).now)) [
    | inl late ↦ (
      (false, run (ticks i).meanwhile source),
      (rw late refl, (i, (omega arith, (Running-here i, leb→le deadline (ticks i).now late)))),
    )
    | inr early ↦ elim (Bool-cases (ticks i).ready) [
      | inl done ↦ (
        (true, run (ticks i).meanwhile source),
        (rw (early, done) refl, (i, (omega arith, (Running-here i, (not_late early, done))))),
      )
      | inr waits ↦
          let (ended, (e, (j, (after, (r, at))))) = later (not_late early) in
          (
            ended,
            (
              rw (early, waits) e,
              (j, (omega arith, (Running-step i j (not_late early) waits r, at))),
            ),
          )
    ]
  ]
    where
      not_late : leb deadline (ticks i).now ≡ false → (ticks i).now < deadline
      not_late e = ground arith

  -- Once the clock has reached the deadline by round i + fuel, the loop ends, and what it answers is
  -- what the first round that could end it saw.
  pub poll-Ends :
      (fuel i : ℕ) (source : State)
      → deadline ≤ (ticks (i + fuel)).now
      → Answers (suc fuel) i source
  poll-Ends zero i source h = poll-turn zero i source (λ early. absurd (still early))
    where
      still : (ticks i).now < deadline → ⊥
      still early =
          let same : i + 0 ≡ i = omega arith in omega (arith, ap (λ k. (ticks k).now) same)
  poll-Ends (suc fuel) i source h = poll-turn (suc fuel) i source (λ early.
      poll-Ends fuel (suc i) (forward (ticks i).run_source (run (ticks i).meanwhile source))
        (subst (λ k. deadline ≤ (ticks k).now) (omega arith) h))

-- What a caller learns from the outcome of the wait.
abbrev pub Learns :
    (ℕ → Tick) → ℕ → Bool → Bytes → List Bytes → BodyOutcome → State → List Bytes → Type 0
Learns ticks deadline ready_in_grace name before o source after =
    Ends ticks deadline 0 (not o.deadline_exceeded)
    × ((o.completed ≡ (not o.deadline_exceeded || ready_in_grace))
        × ((o.deadline_exceeded ≡ true → source.cancelled ≡ true)
            × (after ≡ (if o.completed then before else adopt name before))))

cancel-cancelled : (reason : Bytes) (source : State) → (cancel reason source).cancelled ≡ true
unfolding cancel
cancel-cancelled reason source = ground arith

settle-Learns :
    (ticks : ℕ → Tick) (deadline : ℕ) (ready_in_grace : Bool) (timeout_ms : ℤ) (name : Bytes)
    (orphans : List Bytes) (ended : Bool × State)
    → Ends ticks deadline 0 ended.0
    → let (o, (left, after)) = settle ready_in_grace timeout_ms name orphans ended in
      Learns ticks deadline ready_in_grace name orphans o left after
unfolding settle
settle-Learns ticks deadline ready_in_grace timeout_ms name orphans (true, source) h =
    (h, (refl, (λ x. cc, refl)))
settle-Learns ticks deadline ready_in_grace timeout_ms name orphans (false, source) h =
    (h, (refl, (λ x. cancel-cancelled (deadline_reason timeout_ms) source, refl)))

-- If the clock reaches the deadline by some round, the wait ends. It says that the deadline was
-- exceeded exactly as the first round that could end the loop found: the time had come with the body
-- running in all rounds before, or the body finished in a round before that time. An exceeded
-- deadline leaves the test's source cancelled; the body counts as completed if it finished in time
-- or in the grace period, and otherwise, and only then, its thread is an orphan.
pub await_bounded_body-Learns :
    (ticks : ℕ → Tick) (deadline rounds : ℕ) (ready_in_grace : Bool) (timeout_ms : ℤ) (name : Bytes)
    (orphans : List Bytes) (source : State)
    → deadline ≤ (ticks rounds).now
    → (o : BodyOutcome) × ((after : State × List Bytes) × ((await_bounded_body
              (suc rounds)
              ticks
              deadline
              ready_in_grace
              timeout_ms
              name
              orphans
              source
            ≡ some (o, after))
          × Learns ticks deadline ready_in_grace name orphans o after.0 after.1))
unfolding await_bounded_body
await_bounded_body-Learns ticks deadline rounds ready_in_grace timeout_ms name orphans source h =
    let start : rounds ≡ 0 + rounds = omega arith in
    let (ended, (e, ends)) =
      poll-Ends ticks deadline rounds 0 source (subst (λ k. deadline ≤ (ticks k).now) start h) in
    let settled = settle ready_in_grace timeout_ms name orphans ended in
    (
      settled.0,
      (
        settled.1,
        (
          rw (e, await_bounded_body) refl,
          settle-Learns ticks deadline ready_in_grace timeout_ms name orphans ended ends,
        ),
      ),
    )
